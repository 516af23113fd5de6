-- ===== src/Upload/Limit.antt =====
-- The size limit of a part with several files.
mod Examples
use xhttp.Prelude.{
  ℕ, ◌≡◌, ◌≢◌, refl, subst, sym, ap, ◌∙◌, String, Bool, true, false, Option, none, some, List, [],
  ◌∷◌, not, ◌||◌, if◌then◌else◌, ◌==◌, Bool-cases, inl, inr, arith, get_elem?,
}
use xhttp.Prelude.Int.{ℤ, pos, ◌+ℤ◌, ◌-ℤ◌, ◌≤ℤ◌, ltb_ℤ, int_laws}
use xhttp.Session.Action.{State, Error, foreign, wraps, Result, ok, err, crash}
use xhttp.Upload.Form.{Field, Object, Content, Cancel, Uploaded, uploaded, refused, new_file}
use xhttp.Upload.Parts.{
  Part, Stream, eof, broken, part, Media, Upload, Exit, go, stop, panics, Parse, go_on, pure,
  return_error, on_backends, bad_content_type, uploading_failed, too_large, ◌>>◌,
}
use xhttp.Upload.Parse.{change_field, changed_at}
use xhttp.Upload.Accepted.{stop-ne}
use xhttp.Upload.Files.{
  Config, allowed, or_no_id, identified, or_refused, upload_with, add_file, left_over,
  expect_no_byte, mixed_file, mixed_files, peek_size,
}

within_total :
    (before remaining n now later : ℤ)
    → now ≡ before +ℤ n
    → later ≤ℤ now +ℤ (remaining -ℤ n)
    → later ≤ℤ before +ℤ remaining
within_total before remaining n now later e h = let h' = rw e at h in omega int_laws

within_self : (before left : ℤ) → ltb_ℤ left (pos 0) ≡ false → before ≤ℤ before +ℤ left
within_self before left h = let h' : pos 0 ≤ℤ left = ground arith in omega int_laws

-- What holds of the value and the state if the code goes on
abbrev Post : {S D A : Type 0} → Exit A × Upload S D → (A → Upload S D → Type 0) → Type 0
Post (go a, u) Q = Q a u
Post (stop e, u) Q = Unit {0}
Post (panics msg, u) Q = Unit {0}

module _ {S D A : Type 0} where
  Post-map :
      (P Q : A → Upload S D → Type 0) (r : Exit A × Upload S D)
      → ((a : A) (u : Upload S D) → P a u → Q a u)
      → Post r P
      → Post r Q
  Post-map P Q (go a, u) = λ f p. f a u p
  Post-map P Q (stop e, u) = λ f p. tt
  Post-map P Q (panics msg, u) = λ f p. tt

  Post-guard :
      (b : Bool) (e : Error) (y : A) (u : Upload S D)
      → Post
          ((if b then return_error e else pure y) u)
          (λ a u'. (b ≡ false) × (u'.session ≡ u.session))
  Post-guard true e y u = tt
  Post-guard false e y u = (refl, refl)

module _ {S D A B : Type 0} where
  Post-go_on :
      (P : A → Upload S D → Type 0) (Q : B → Upload S D → Type 0) (m : Exit A × Upload S D)
      (f : A → Parse S D B)
      → Post m P
      → ((a : A) (u : Upload S D) → P a u → Post (f a u) Q)
      → Post (go_on m f) Q
  Post-go_on P Q (go a, u) = λ f p k. k a u p
  Post-go_on P Q (stop e, u) = λ f p k. tt
  Post-go_on P Q (panics msg, u) = λ f p k. tt

-- What the upload function adds to `count` is the number of bytes that it answers.
abbrev pub Counts : {S D : Type 0} → (S → ℤ) → (Object D → S → Uploaded S D × S) → Type 0
Counts {S} {D} count up =
    (obj : Object D) (b : S) (n : ℤ) (c : Cancel S) (rest : D)
    → (up obj b).0 ≡ uploaded n c rest
    → count (up obj b).1 ≡ count b +ℤ n

module _ {S D : Type 0} (media : Media D) (count : S → ℤ) (h : Config S)
    (quiet : (b : S) → count (h.file_id b).1 ≡ count b) where
  abbrev counted : Upload S D → ℤ
  counted u = count u.session.backends

  changed_at-session :
      (i : ℕ) (change : Content S D → Content S D) (o : Option (Field S D)) (u : Upload S D)
      → (changed_at i change o u).session ≡ u.session
  changed_at-session i change none u = refl
  changed_at-session i change (some f) u = refl

  no_id-Post :
      (r : Result String) (u : Upload S D) (f : String → Object D)
      → Post (go_on (or_no_id media r u) (λ i. pure (f i))) (λ a u'. u'.session ≡ u.session)
  no_id-Post (ok i) u f = refl
  no_id-Post (err e) u f = tt
  no_id-Post (crash msg) u f = tt

  counted_session : (u v : Upload S D) → u.session ≡ v.session → counted u ≡ counted v
  counted_session u v same = ap (λ (s : State S). count s.backends) same

  identified-Post :
      (obj : Object D) (u : Upload S D)
      → Post (identified media h obj u) (λ a u'. counted u' ≡ counted u)
  unfolding identified
  identified-Post obj u =
      let r = h.file_id u.session.backends in
      let u1 : Upload S D = record u { session = record u.session { backends = r.1 } } in
      Post-map (λ a u'. u'.session ≡ u1.session) (λ a u'. counted u' ≡ counted u)
        (go_on (or_no_id media r.0 u1) (λ i. pure (record obj { file_uuid = i })))
        (λ a u' same. counted_session u' u1 same ∙ quiet u.session.backends)
        (no_id-Post r.0 u1 (λ i. record obj { file_uuid = i }))

  module _ (i : ℕ) (f : Field S D) (up : Object D → S → Uploaded S D × S)
      (loads : f.content.upload ≡ some up) (counts : Counts count up) where
    refused-Post :
        (wrapped : Error → Error) (obj : Object D) (b : S) (r : Uploaded S D) (u : Upload S D)
        → (up obj b).0 ≡ r
        → u.session.backends ≡ (up obj b).1
        → Post (or_refused media wrapped r u) (λ a u'. counted u' ≡ count b +ℤ a.0)
    refused-Post wrapped obj b (refused e) u er eb = tt
    refused-Post wrapped obj b (uploaded n c rest) u er eb = ap count eb ∙ counts obj b n c rest er

    upload_with-Post :
        (wrapped : Error → Error) (obj : Object D) (u : Upload S D)
        → Post
            (upload_with media wrapped f.content.upload obj u)
            (λ a u'. counted u' ≡ counted u +ℤ a.0)
    upload_with-Post wrapped obj u =
        subst
          (λ o. Post (upload_with media wrapped o obj u) (λ a u'. counted u' ≡ counted u +ℤ a.0))
          (sym loads)
          (refused-Post wrapped obj u.session.backends (up obj u.session.backends).0
            (record u { session = record u.session { backends = (up obj u.session.backends).1 } })
            refl refl)

    -- The rest of the files keep within what is left.
    abbrev StaysWithin : {A : Type 0} → ℤ → Upload S D → Exit A × Upload S D → Type 0
    StaysWithin left u r = Post r (λ a u'. counted u' ≤ℤ counted u +ℤ left)

    -- What follows the upload of `n` bytes, where `before` was counted before it
    file_end :
        (before remaining n : ℤ) (rest : D) (change : Content S D → Content S D)
        (continue : ℤ → Parse S D (Unit {0}))
        → ((left : ℤ) (u' : Upload S D)
            → ltb_ℤ left (pos 0) ≡ false
            → StaysWithin left u' (continue left u'))
        → (u : Upload S D) → counted u ≡ before +ℤ n
        → Post
            ((change_field i change
                >> (left_over media (remaining -ℤ n)
                    >> (expect_no_byte media rest >> continue (remaining -ℤ n))))
              u)
            (λ a u'. counted u' ≤ℤ before +ℤ remaining)
    file_end before remaining n rest change continue k u e =
        let Q : Unit {0} → Upload S D → Type 0 = λ a u'. counted u' ≤ℤ before +ℤ remaining in
        let left = remaining -ℤ n in
        let u4 = changed_at i change (get_elem? u.form i) u in
        let same4 = changed_at-session i change (get_elem? u.form i) u in
        Post-go_on (λ a u5. (ltb_ℤ left (pos 0) ≡ false) × (u5.session ≡ u4.session)) Q
          (left_over media left u4) _
          (Post-guard (ltb_ℤ left (pos 0)) (wraps too_large (foreign "limit")) tt u4)
          (λ x5 u5 (some_left, same5).
            let (more, rest') = media.read_byte rest in
            Post-go_on (λ a u6. (more ≡ false) × (u6.session ≡ u5.session)) Q
              (expect_no_byte media rest u5) _
              (Post-guard more (wraps too_large (foreign "limit")) rest' u5)
              (λ x6 u6 (no_more, same6).
                let now : counted u6 ≡ before +ℤ n =
                  counted_session u6 u (same6 ∙ same5 ∙ same4) ∙ e in
                Post-map (λ a u'. counted u' ≤ℤ counted u6 +ℤ left) Q (continue left u6)
                  (λ a u' within.
                    within_total before remaining n (counted u6) (counted u') now within)
                  (k left u6 some_left)))

    mixed_file-StaysWithin :
        (q : Part D) (ct : String) (continue : ℤ → Parse S D (Unit {0})) (remaining : ℤ)
        (u : Upload S D)
        → ((left : ℤ) (u' : Upload S D)
            → ltb_ℤ left (pos 0) ≡ false
            → StaysWithin left u' (continue left u'))
        → StaysWithin remaining u (mixed_file media h i f q ct continue remaining u)
    unfolding mixed_file
    mixed_file-StaysWithin q ct continue remaining u k =
        let Q : Unit {0} → Upload S D → Type 0 = λ a u'. counted u' ≤ℤ counted u +ℤ remaining in
        let obj0 = new_file (q.body, remaining) q.file_name ct h.uploader_id f.content.path in
        let refused_type = not (allowed f "multipart/mixed") || ct == "multipart/mixed" in
        Post-go_on (λ a u1. (refused_type ≡ false) × (u1.session ≡ u.session)) Q _ _
          (Post-guard refused_type bad_content_type tt u)
          (λ x1 u1 (b1, e1).
            Post-go_on (λ a u2. counted u2 ≡ counted u1) Q (identified media h obj0 u1) _
              (identified-Post obj0 u1)
              (λ obj u2 e2.
                Post-go_on (λ a u3. counted u3 ≡ counted u2 +ℤ a.0) Q
                  (upload_with media (wraps uploading_failed) f.content.upload obj u2) _
                  (upload_with-Post (wraps uploading_failed) obj u2)
                  (λ (n, rest) u3 e3.
                    file_end (counted u) remaining n rest (add_file media obj) continue k u3
                      (e3 ∙ ap (λ c. c +ℤ n) (e2 ∙ counted_session u1 u e1)))))

    if-StaysWithin :
        (b : Bool) (m k : Parse S D (Unit {0})) (left : ℤ) (u : Upload S D)
        → StaysWithin left u (m u)
        → StaysWithin left u (k u)
        → StaysWithin left u ((if b then m else k) u)
    if-StaysWithin true m k left u pm pk = pm
    if-StaysWithin false m k left u pm pk = pk

    mixed_files-StaysWithin :
        (s : Stream D) (remaining : ℤ) (u : Upload S D)
        → ltb_ℤ remaining (pos 0) ≡ false
        → StaysWithin remaining u (mixed_files media h i f s remaining u)
    unfolding mixed_files
    mixed_files-StaysWithin eof remaining u r = within_self (counted u) remaining r
    mixed_files-StaysWithin (broken e) remaining u r = tt
    mixed_files-StaysWithin (part q rest peeked after) remaining u r =
        let n = peek_size remaining in
        if-StaysWithin (media.parse_media q.content_type).1 _ _ remaining u
          (mixed_file-StaysWithin q (media.parse_media q.content_type).0.0
            (mixed_files media h i f rest) remaining u
            (λ left u' some_left. mixed_files-StaysWithin rest left u' some_left))
          (mixed_file-StaysWithin q (media.detect (peeked n)) (mixed_files media h i f (after n))
            remaining u (λ left u' some_left. mixed_files-StaysWithin (after n) left u' some_left))

    -- If the files of a part of the type multipart/mixed are accepted, the upload function has loaded
    -- no more bytes for them than the size limit of the field, where `count` is the number of bytes
    -- that it has loaded so far.
    pub mixed_files-bound :
        (s : Stream D) (u u' : Upload S D)
        → ltb_ℤ f.content.size_limit (pos 0) ≡ false
        → mixed_files media h i f s f.content.size_limit u ≡ (go tt, u')
        → count u'.session.backends ≤ℤ count u.session.backends +ℤ f.content.size_limit
    mixed_files-bound s u u' limit e =
        subst (λ r. StaysWithin f.content.size_limit u r) e
          (mixed_files-StaysWithin s f.content.size_limit u limit)
