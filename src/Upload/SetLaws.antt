-- ===== src/Upload/SetLaws.antt =====
-- The sets of strings of the upload handlers as predicates.
use xhttp.Prelude.{
  ◌≡◌, refl, String, Bool, true, false, List, [], ◌∷◌, ◌||◌, ◌&&◌, if◌then◌else◌, ◌==◌, is_some,
  arith, eq_iff,
}
use xhttp.Prelude.Dict.{lookup, insert, lookup-insert}
use xhttp.Upload.Sets.{Set, holds, union, inter, add_keys, common_keys, add}

-- Every key has the value true, as in every set that the operations make.
abbrev pub AllTrue : Set → Type 0
AllTrue s = (k : String) → holds k s ≡ is_some (lookup k s)

holds-insert :
    (j k : String) (s : Set) → holds k (insert j true s) ≡ (if j == k then true else holds k s)
unfolding holds
holds-insert j k s = rw lookup-insert (ground arith)

pub add-AllTrue : (strs : List String) (s : Set) → AllTrue s → AllTrue (add strs s)
unfolding add
add-AllTrue [] s h = h
add-AllTrue (str ∷ strs) s h =
    add-AllTrue strs (insert str true s)
      (λ k. rw (holds-insert, lookup-insert) (ground (arith, h k)))

add_keys-holds :
    (k : String) (v r : Set) → holds k (add_keys v r) ≡ (is_some (lookup k v) || holds k r)
unfolding add_keys lookup
add_keys-holds k [] r = refl
add_keys-holds k ((j, b) ∷ v) r =
    rw (add_keys-holds k v (insert j true r), holds-insert) (ground arith)

holds-if_insert :
    (c : Bool) (j k : String) (r : Set)
    → holds k (if c then insert j true r else r) ≡ ((c && (j == k)) || holds k r)
holds-if_insert true j k r = rw holds-insert (ground arith)
holds-if_insert false j k r = refl

same_key : (j k : String) (s : Set) → (holds j s && (j == k)) ≡ ((j == k) && holds k s)
same_key j k s = ground (arith, eq_iff j k)

regroup :
    (a b c h r : Bool)
    → (a && b) ≡ (b && h)
    → ((c && h) || ((a && b) || r)) ≡ (((if b then true else c) && h) || r)
regroup a b c h r e = ground arith

common_keys-holds :
    (k : String) (s v r : Set)
    → holds k (common_keys s v r) ≡ ((is_some (lookup k v) && holds k s) || holds k r)
unfolding common_keys lookup
common_keys-holds k s [] r = refl
common_keys-holds k s ((j, b) ∷ v) r =
    rw (common_keys-holds k s v (if holds j s then insert j true r else r), holds-if_insert)
      (ground (
        arith,
        regroup (holds j s) (j == k) (is_some (lookup k v)) (holds k s) (holds k r),
        same_key j k s,
      ))

-- Union and Inter of sets as Add makes them are those of the predicates.
pub union-holds :
    (s v : Set) (k : String)
    → AllTrue s
    → AllTrue v
    → (holds k (union s v) ≡ (holds k s || holds k v))
      × (holds k (inter s v) ≡ (holds k s && holds k v))
unfolding union inter holds
union-holds s v k hs hv = (
  rw (add_keys-holds, add_keys-holds) (ground (arith, hs k, hv k)),
  rw common_keys-holds (ground (arith, hs k, hv k)),
)
