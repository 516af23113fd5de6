-- ===== src/Mux/Longest.antt =====
-- What the choice of the pattern promises.
use Prim.Native.String.{len}
use text.Mathlib.Text.{starts_with}
use xhttp.Prelude.{
  ◌≤◌, ◌<◌, ◌≡◌, refl, sym, ◌∙◌, ap, ◌⊎◌, inl, inr, String, none, some, [], ◌∷◌, true, subst, ◌&&◌,
  ltb, arith, Memᴰ, Bool-cases, &&-eq-true, Option-cases,
}
use xhttp.Prelude.Dict.{Dict, lookup, Distinct, lookup_of_mem, mem_of_lookup}
use xhttp.Prelude.Text.{has_suffix, starts_with_unique}
use xhttp.Mux.Verbs.{VerbHandlers, no_handlers}
use xhttp.Mux.Route.{matches, better, scan, find_route}

matches-starts_with : (path k : String) → matches path k ≡ true → starts_with path k ≡ true
matches-starts_with path k t = (&&-eq-true (has_suffix k "/") (starts_with path k) t).1

module _ (path : String) where
  scan_upper :
      (m : Dict VerbHandlers) (acc : String × VerbHandlers)
      → (len acc.0 ≤ len (scan path m acc).0)
        × ((k : String) (v : VerbHandlers)
            → Memᴰ (k, v) m
            → matches path k ≡ true
            → len k ≤ len (scan path m acc).0)
  unfolding scan
  scan_upper [] acc = (omega arith, λ k v h. elim h [ ])
  scan_upper ((p, w) ∷ m) (longest, vh) =
      let (low, all) = scan_upper m (better path (p, w) (longest, vh)) in
      (
        ground arith,
        λ k v h. elim h [
          | Memᴰ.head e ↦ λ t. let same : k ≡ p = ap (λ t. t.0) e in rw same (ground arith)
          | Memᴰ.tail h' ↦ all k v h'
        ],
      )

  -- What a scan from `acc` over `m` can end with.
  abbrev From : Dict VerbHandlers → String × VerbHandlers → String × VerbHandlers → Type 0
  From m acc r = (r ≡ acc) ⊎ (Memᴰ r m × (matches path r.0 ≡ true) × (len acc.0 < len r.0))

  From-cons :
      (m : Dict VerbHandlers) (e acc r : String × VerbHandlers) → From m acc r → From (e ∷ m) acc r
  From-cons m e acc r (inl same) = inl same
  From-cons m e acc r (inr (h, t, l)) = inr (Memᴰ.tail h, t, l)

  From-taken :
      (m : Dict VerbHandlers) (e acc r : String × VerbHandlers)
      → (matches path e.0 && ltb (len acc.0) (len e.0)) ≡ true
      → From m e r
      → From (e ∷ m) acc r
  From-taken m e acc r taken (inl same) =
      let key : r.0 ≡ e.0 = ap (λ t. t.0) same in
      inr (Memᴰ.head same, rw key (&&-eq-true _ _ taken).0, rw key (ground arith))
  From-taken m e acc r taken (inr (h, t, l)) =
      let lower : len acc.0 < len e.0 = ground arith in inr (Memᴰ.tail h, t, omega arith)

  scan-From : (m : Dict VerbHandlers) (acc : String × VerbHandlers) → From m acc (scan path m acc)
  unfolding scan
  scan-From [] acc = inl refl
  scan-From (e ∷ m) acc = elim (Bool-cases (matches path e.0 && ltb (len acc.0) (len e.0))) [
    | inl taken ↦
        let b : better path e acc ≡ e = rw taken in
        subst (λ a. From (e ∷ m) acc (scan path m a)) (sym b)
          (From-taken m e acc (scan path m e) taken (scan-From m e))
    | inr left ↦
        let b : better path e acc ≡ acc = rw left in
        subst (λ a. From (e ∷ m) acc (scan path m a)) (sym b)
          (From-cons m e acc (scan path m acc) (scan-From m acc))
  ]

-- The choice among the patterns that end in a slash, where the path itself is not registered:
-- it is nothing, or a registered pattern with its handlers that is a prefix of the path; and no
-- registered pattern that ends in a slash and is a prefix of the path is longer.
pub record IsLongest (path : String) (m : Dict VerbHandlers) (r : String × VerbHandlers)
    : Type 0 where
  pub chosen :
      (r ≡ ("", no_handlers))
      ⊎ ((lookup r.0 m ≡ some r.1) × (matches path r.0 ≡ true) × (0 < len r.0))
  pub longest :
      (k : String) (v : VerbHandlers)
      → lookup k m ≡ some v
      → matches path k ≡ true
      → len k ≤ len r.0

pub scan-IsLongest :
    (path : String) (m : Dict VerbHandlers)
    → Distinct m
    → IsLongest path m (scan path m ("", no_handlers))
scan-IsLongest path m d =
    let r : String × VerbHandlers = scan path m ("", no_handlers) in
    record {
      chosen = elim (scan-From path m ("", no_handlers)) [
        | inl e ↦ inl e
        | inr (h, t, l) ↦ inr (lookup_of_mem r.0 r.1 m d h, t, omega arith)
      ];
      longest = λ k v e t. (scan_upper path m ("", no_handlers)).1 k v (mem_of_lookup k v m e) t;
    }

-- A path that is not registered itself is served by the longest registered pattern that ends in a
-- slash and is a prefix of the path, if there is one.
pub find_route-IsLongest :
    (path : String) (m : Dict VerbHandlers)
    → Distinct m
    → lookup path m ≡ none
    → IsLongest path m (find_route path m)
find_route-IsLongest path m d e =
    let r : find_route path m ≡ scan path m ("", no_handlers) =
      (unfold find_route in rw (e, find_route)) in
    subst (IsLongest path m) (sym r) (scan-IsLongest path m d)

abbrev SameEntries : Dict VerbHandlers → Dict VerbHandlers → Type 0
SameEntries m m' = (k : String) → lookup k m ≡ lookup k m'

IsLongest-unique :
    (path : String) (m m' : Dict VerbHandlers) (r r' : String × VerbHandlers)
    → SameEntries m m'
    → IsLongest path m r
    → IsLongest path m' r'
    → r ≡ r'
IsLongest-unique path m m' r r' same a b = elim a.chosen [
  | inl e ↦ elim b.chosen [
    | inl e' ↦ e ∙ sym e'
    | inr (l', t', p') ↦ absurd (
        let n = a.longest r'.0 r'.1 (same r'.0 ∙ l') t' in
        let z : len r.0 ≡ 0 = ap (λ t. len t.0) e in omega arith)
  ]
  | inr (l, t, p) ↦ elim b.chosen [
    | inl e' ↦ absurd (
        let n = b.longest r.0 r.1 (sym (same r.0) ∙ l) t in
        let z : len r'.0 ≡ 0 = ap (λ t. len t.0) e' in omega arith)
    | inr (l', t', p') ↦
        let n = a.longest r'.0 r'.1 (same r'.0 ∙ l') t' in
        let n' = b.longest r.0 r.1 (sym (same r.0) ∙ l) t in
        let key : r.0 ≡ r'.0 =
          starts_with_unique path r.0 r'.0 (matches-starts_with path r.0 t)
            (matches-starts_with path r'.0 t') (omega arith) in
        let value : some r.1 ≡ some r'.1 = sym l ∙ ap (λ k. lookup k m) key ∙ same r'.0 ∙ l' in
        let value' : r.1 ≡ r'.1 = cc value in λ i. (key i, value' i)
  ]
]

-- The choice does not depend on the order in which Go's map iteration visits the patterns: two
-- route tables with the same entries choose the same pattern and the same handlers.
pub find_route-order_irrelevant :
    (path : String) (m m' : Dict VerbHandlers)
    → Distinct m
    → Distinct m'
    → ((k : String) → lookup k m ≡ lookup k m')
    → find_route path m ≡ find_route path m'
find_route-order_irrelevant path m m' d d' same = elim (Option-cases (lookup path m)) [
  | inl e ↦
      IsLongest-unique path m m' _ _ same (find_route-IsLongest path m d e)
        (find_route-IsLongest path m' d' (sym (same path) ∙ e))
  | inr (v, e) ↦ exact v e (sym (same path) ∙ e)
]
  where
    exact :
        (v : VerbHandlers)
        → lookup path m ≡ some v
        → lookup path m' ≡ some v
        → find_route path m ≡ find_route path m'
    exact v e e' = (unfold find_route in rw (e, e', find_route))
