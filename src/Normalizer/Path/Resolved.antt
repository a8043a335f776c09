-- ===== src/Normalizer/Path/Resolved.antt =====
-- A resolved path has no empty, `.` or `..` segment, and resolving it again changes nothing.
use light_waf.Prelude.{
  ℕ, false, List, [], ◌∷◌, ◌++◌, append-nil, append_assoc, ◌≡◌, ◌≢◌, refl, sym, ap, ◌∙◌, arith,
  Bytes, codes, ◌=bytes◌, split, add_front, All, Bool-cases, inl, inr, ◌==◌,
}
use light_waf.Normalizer.Canonical.{TextOps}
use light_waf.Normalizer.Path.{
  pop, take_segment, resolve_segments, render, or_root, resolve_path, normalize_path,
}

abbrev pub NoSlash : Bytes → Type 0
NoSlash = All (λ c. c ≢ b'/')

-- a name: no slash in it, and neither empty nor `.` nor `..`
pub record IsSegment (seg : Bytes) : Type 0 where
  pub ne_empty : (seg =bytes []) ≡ false
  pub ne_dot : (seg =bytes codes ".") ≡ false
  pub ne_dot_dot : (seg =bytes codes "..") ≡ false
  pub no_slash : NoSlash seg

module _ {ℓ κ} {A : Type ℓ} (P : A → Type κ) where
  All-append : (xs ys : List A) → All P xs → All P ys → All P (xs ++ ys)
  All-append [] ys a b = b
  All-append (x ∷ xs) ys a b = (a.0, All-append xs ys a.1 b)

All-pop : (xs : List Bytes) → All IsSegment xs → All IsSegment (pop xs)
unfolding pop
All-pop [] a = tt
All-pop (x ∷ []) a = tt
All-pop (x ∷ y ∷ rest) a = (a.0, All-pop (y ∷ rest) a.1)

add_front-All : (c : ℕ) (ps : List Bytes) → c ≢ b'/' → All NoSlash ps → All NoSlash (add_front c ps)
add_front-All c [] ne a = ((ne, tt), tt)
add_front-All c (p ∷ ps) ne a = ((ne, a.0), a.1)

split-All : (bs : Bytes) → All NoSlash (split b'/' bs)
unfolding split
split-All [] = (tt, tt)
split-All (c ∷ cs) = elim (Bool-cases (c == b'/')) [
  | inl slash ↦ rw slash (tt, split-All cs)
  | inr other ↦ rw other (add_front-All c (split b'/' cs) (ground arith) (split-All cs))
]

take_segment-All :
    (segments : List Bytes) (seg : Bytes)
    → All IsSegment segments
    → NoSlash seg
    → All IsSegment (take_segment segments seg)
unfolding take_segment
take_segment-All segments seg a n = elim (Bool-cases (seg =bytes [])) [
  | inl empty ↦ rw empty a
  | inr ne_empty ↦ rw ne_empty (elim (Bool-cases (seg =bytes codes ".")) [
    | inl dot ↦ rw dot a
    | inr ne_dot ↦ rw ne_dot (elim (Bool-cases (seg =bytes codes "..")) [
      | inl dot_dot ↦ rw dot_dot (All-pop segments a)
      | inr ne_dot_dot ↦ rw ne_dot_dot (
          All-append IsSegment segments (seg ∷ []) a (
            record { ne_empty = ne_empty; ne_dot = ne_dot; ne_dot_dot = ne_dot_dot; no_slash = n },
            tt,
          ))
    ])
  ])
]

resolve_segments-All :
    (segments pieces : List Bytes)
    → All IsSegment segments
    → All NoSlash pieces
    → All IsSegment (resolve_segments segments pieces)
unfolding resolve_segments
resolve_segments-All segments [] a n = a
resolve_segments-All segments (seg ∷ rest) a n =
    resolve_segments-All (take_segment segments seg) rest (take_segment-All segments seg a n.0) n.1

-- names are kept as they are
take_segment-IsSegment :
    (segments : List Bytes) (seg : Bytes)
    → IsSegment seg
    → take_segment segments seg ≡ segments ++ (seg ∷ [])
unfolding take_segment
take_segment-IsSegment segments seg h = rw (h.ne_empty, h.ne_dot, h.ne_dot_dot)

resolve_segments-id :
    (segments pieces : List Bytes)
    → All IsSegment pieces
    → resolve_segments segments pieces ≡ segments ++ pieces
unfolding resolve_segments
resolve_segments-id segments [] a = sym (append-nil segments)
resolve_segments-id segments (seg ∷ rest) a =
    rw (take_segment-IsSegment segments seg a.0) (
      resolve_segments-id (segments ++ (seg ∷ [])) rest a.1 ∙ append_assoc segments (seg ∷ []) rest)

-- a piece with no slash joins the first piece of what follows it
abbrev prepend : Bytes → List Bytes → List Bytes
prepend s [] = s ∷ []
prepend s (p ∷ ps) = (s ++ p) ∷ ps

add_front-prepend :
    (c : ℕ) (s : Bytes) (ps : List Bytes) → add_front c (prepend s ps) ≡ prepend (c ∷ s) ps
add_front-prepend c s [] = refl
add_front-prepend c s (p ∷ ps) = refl

prepend_nil-add_front : (c : ℕ) (ps : List Bytes) → prepend [] (add_front c ps) ≡ add_front c ps
prepend_nil-add_front c [] = refl
prepend_nil-add_front c (p ∷ ps) = refl

prepend-nil : (bs : Bytes) → prepend [] (split b'/' bs) ≡ split b'/' bs
unfolding split
prepend-nil [] = refl
prepend-nil (c ∷ cs) = elim (Bool-cases (c == b'/')) [
  | inl slash ↦ rw slash refl
  | inr other ↦ rw other (prepend_nil-add_front c (split b'/' cs))
]

split-append : (s rest : Bytes) → NoSlash s → split b'/' (s ++ rest) ≡ prepend s (split b'/' rest)
unfolding split
split-append [] rest n = sym (prepend-nil rest)
split-append (c ∷ s) rest n =
    rw (other c n.0, split-append s rest n.1) (add_front-prepend c s (split b'/' rest))
  where
    other : (c : ℕ) → c ≢ b'/' → (c == b'/') ≡ false
    other c h = ground arith

split-render : (segs : List Bytes) → All IsSegment segs → split b'/' (render segs) ≡ [] ∷ segs
unfolding render split
split-render [] a = refl
split-render (seg ∷ rest) a =
    rw (split-append seg (render rest) a.0.no_slash, split-render rest a.1, append-nil seg)

-- the path is a slash before each of some names, or the root
pub record IsResolved (path : Bytes) : Type 0 where
  pub segments : List Bytes
  pub names : All IsSegment segments
  pub spelled : path ≡ or_root (render segments)

resolve_path-render :
    (segs : List Bytes)
    → All IsSegment segs
    → resolve_path (or_root (render segs)) ≡ or_root (render segs)
unfolding resolve_path split ◌=bytes◌
resolve_path-render [] a = refl
resolve_path-render (seg ∷ rest) a =
    ap (λ pieces. or_root (render (resolve_segments [] pieces))) (split-render (seg ∷ rest) a)
    ∙ ap (λ segs. or_root (render segs)) (resolve_segments-id [] (seg ∷ rest) a)

-- Whatever the path, what `resolve_path` gives is spelled by names alone (no empty, `.` or `..`
-- segment is left, so none climbs out of the root), and resolving it again changes nothing.
resolve_path-IsResolved :
    (path : Bytes)
    → IsResolved (resolve_path path) × (resolve_path (resolve_path path) ≡ resolve_path path)
unfolding resolve_path
resolve_path-IsResolved path =
    let segs = resolve_segments [] (split b'/' path) in
    let names = resolve_segments-All [] (split b'/' path) tt (split-All path) in
    (record { segments = segs; names = names; spelled = refl }, resolve_path-render segs names)

-- A path that is spelled by names is left as it is.
resolve_path-id : (path : Bytes) → IsResolved path → resolve_path path ≡ path
resolve_path-id path h = rw h.spelled (resolve_path-render h.segments h.names)

-- The path that detection modules see is resolved, for every raw path and every Unicode table.
pub normalize_path-IsResolved :
    (ops : TextOps) (raw : Bytes) → IsResolved (normalize_path ops raw).path
unfolding normalize_path
normalize_path-IsResolved ops raw = (resolve_path-IsResolved _).0
