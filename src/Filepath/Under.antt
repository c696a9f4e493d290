-- ===== src/Filepath/Under.antt =====
-- Where a copied entry lands: below the destination if its path was validated, and elsewhere if not.
use mathlib.Core.List.{head-eq_of_cons-eq, tail-eq_of_cons-eq}
use cross_host_ops.Base.{
  ◌≡◌, refl, sym, ap, ◌∙◌, inl, inr, Bool, true, false, not, List, [], ◌∷◌, ◌++◌, append-nil,
  append_assoc, arith, any, ok, Text, codes, text_eq, contains_char, is_empty, ◌==◌, split, trim,
  retain, backslash, Bool-cases, or_false, All, All-append, ◌≢◌, if◌then◌else◌,
}
use cross_host_ops.Filepath.{
  relative, absolute, cur_dir, at_start, NormalizedPath, slash, split_segments, has_drive,
  from_trimmed, from_str, append, dots, validate_relative, Component, parent_dir, normal, LocalPath,
  segments_of, from_local, pop, push, enter, walk, is_rooted, to_local, join_relative_path,
}

walk-append :
    (rooted : Bool) (cs : List Component) (xs ys : List Text)
    → walk rooted cs (xs ++ ys) ≡ walk rooted (walk rooted cs xs) ys
unfolding walk
walk-append rooted cs [] ys = refl
walk-append rooted cs (x ∷ xs) ys = walk-append rooted (enter rooted cs x) xs ys

-- The component leads down, or nowhere.
abbrev pub IsDown : Component → Type 0
IsDown cur_dir = Unit {0}
IsDown parent_dir = ⊥
IsDown (normal name) = text_eq name dots ≡ false

push-IsDown :
    (rooted : Bool) (cs : List Component) (seg : Text)
    → text_eq seg dots ≡ false
    → (rest : List Component) × (push rooted cs seg ≡ cs ++ rest) × All IsDown rest
unfolding push
push-IsDown rooted cs seg h = elim (Bool-cases (text_eq seg (codes "."))) [
  | inr e ↦ (normal seg ∷ [], rw e refl, (h, tt))
  | inl e ↦ elim (Bool-cases (at_start rooted cs)) [
    | inr f ↦ ([], rw (e, f) (sym (append-nil cs)), tt)
    | inl f ↦ (cur_dir ∷ [], rw (e, f) (at_start-nil rooted cs f), (tt, tt))
  ]
]
  where
    at_start-nil :
        (rooted : Bool) (cs : List Component)
        → at_start rooted cs ≡ true
        → cur_dir ∷ [] ≡ cs ++ (cur_dir ∷ [])
    at_start-nil rooted [] f = refl
    at_start-nil rooted (c ∷ cs) f = absurd (ground arith)

walk-extends :
    (rooted : Bool) (cs : List Component) (segs : List Text)
    → any (λ s. text_eq s dots) segs ≡ false
    → (rest : List Component) × (walk rooted cs segs ≡ cs ++ rest) × All IsDown rest
unfolding walk enter
walk-extends rooted cs [] h = ([], sym (append-nil cs), tt)
walk-extends rooted cs (seg ∷ segs) h =
    let (stays, later) = or_false (text_eq seg dots) (any (λ s. text_eq s dots) segs) h in
    elim (Bool-cases (is_empty seg)) [
      | inl e ↦
          let (rest, eq, down) = walk-extends rooted cs segs later in (rest, rw (stays, e) eq, down)
      | inr e ↦
          let (one, first, low) = push-IsDown rooted cs seg stays in
          let (rest, eq, down) = walk-extends rooted (push rooted cs seg) segs later in
          (
            one ++ rest,
            rw (stays, e) (eq ∙ ap (λ x. x ++ rest) first ∙ append_assoc cs one rest),
            All-append IsDown one rest low down,
          )
    ]

validate_relative-ok :
    (p : NormalizedPath)
    → validate_relative p ≡ ok tt
    → any (λ s. text_eq s dots) p.segments ≡ false
unfolding validate_relative
validate_relative-ok p h = elim (Bool-cases (any (λ s. text_eq s dots) p.segments)) [
  | inl e ↦ absurd (ground arith)
  | inr e ↦ e
]

-- A directory that is given by names alone: no `.` and no `..`.
abbrev pub IsPlain : Component → Type 0
IsPlain cur_dir = ⊥
IsPlain parent_dir = ⊥
IsPlain (normal name) =
    (text_eq name dots ≡ false) × (is_empty name ≡ false) × (text_eq name (codes ".") ≡ false)

enter-IsPlain :
    (rooted : Bool) (acc : List Component) (name : Text)
    → IsPlain (normal name)
    → enter rooted acc name ≡ acc ++ (normal name ∷ [])
unfolding enter push
enter-IsPlain rooted acc name (d, e, o) = rw (d, e, o) refl

walk-segments_of :
    (rooted : Bool) (acc cs : List Component)
    → All IsPlain cs
    → walk rooted acc (segments_of cs) ≡ acc ++ cs
unfolding walk enter push segments_of
walk-segments_of rooted acc [] h = sym (append-nil acc)
walk-segments_of rooted acc (cur_dir ∷ cs) (p, h) = absurd p
walk-segments_of rooted acc (parent_dir ∷ cs) (p, h) = absurd p
walk-segments_of rooted acc (normal name ∷ cs) (p, h) =
    ap (λ a. walk rooted a (segments_of cs)) (enter-IsPlain rooted acc name p)
    ∙ walk-segments_of rooted (acc ++ (normal name ∷ [])) cs h
    ∙ append_assoc acc (normal name ∷ []) cs

is_rooted-from_local : (root : LocalPath) → is_rooted (from_local root).kind ≡ root.rooted
unfolding from_local
is_rooted-from_local root = elim (Bool-cases root.rooted) [
  | inl e ↦ ap (λ b. is_rooted (if b then absolute else relative)) e ∙ sym e
  | inr e ↦ ap (λ b. is_rooted (if b then absolute else relative)) e ∙ sym e
]

walk-from_local :
    (root : LocalPath)
    → All IsPlain root.components
    → walk (is_rooted (from_local root).kind) [] (from_local root).segments ≡ root.components
unfolding from_local
walk-from_local root h = walk-segments_of (is_rooted (from_local root).kind) [] root.components h

-- A destination that is given by names alone, without `.` and `..`: an entry whose path is a
-- validated one lands below it. The components of the destination stand in front of those of the
-- joined path, what follows them never leads up, and the joined path is rooted if the destination
-- is.
pub join_relative_path-under :
    (root : LocalPath) (rel : Text)
    → All IsPlain root.components
    → validate_relative (from_str rel) ≡ ok tt
    → ((join_relative_path root rel).rooted ≡ root.rooted)
      × (rest : List Component) × ((join_relative_path root rel).components
          ≡ root.components ++ rest)
      × All IsDown rest
unfolding join_relative_path append to_local
join_relative_path-under root rel plain h =
    let segs = (from_str rel).segments in
    let r = is_rooted (from_local root).kind in
    let here = walk-from_local root plain in
    let (rest, eq, down) =
      walk-extends r (walk r [] (from_local root).segments) segs
        (validate_relative-ok (from_str rel) h) in
    (
      is_rooted-from_local root,
      rest,
      walk-append r [] (from_local root).segments segs ∙ eq ∙ ap (λ c. c ++ rest) here,
      down,
    )

split-name : (name : Text) → contains_char slash name ≡ false → split slash name ≡ name ∷ []
split-name [] h = refl
split-name (c ∷ name) h =
    let (other, later) = or_false (c == slash) (contains_char slash name) h in
    rw (other, split-name name later) refl

-- The name of an entry, which is neither empty nor `.` nor `..`.
abbrev pub IsName : Text → Type 0
IsName name =
    (contains_char slash name ≡ false)
    × (is_empty name ≡ false)
    × (text_eq name (codes ".") ≡ false)
    × (text_eq name dots ≡ false)

-- With a `/` in the path the separator is `/`.
pub split_segments-slash :
    (s : Text)
    → contains_char slash s ≡ true
    → split_segments s ≡ retain (λ p. not (is_empty p)) (split slash s)
unfolding split_segments
split_segments-slash s h = elim (Bool-cases (contains_char backslash s)) [
  | inl e ↦ rw (h, e) refl
  | inr e ↦ rw (h, e) refl
]

above-from_trimmed :
    (name : Text)
    → from_trimmed (codes "../" ++ name)
      ≡ record { segments = split_segments (codes "../" ++ name); kind = relative }
unfolding from_trimmed has_drive
above-from_trimmed [] = refl
above-from_trimmed (c ∷ name) = refl

above-from_str :
    (name : Text)
    → IsName name
    → trim (codes "../" ++ name) ≡ codes "../" ++ name
    → (from_str (codes "../" ++ name)).segments ≡ dots ∷ name ∷ []
unfolding from_str
above-from_str name n t =
    ap (λ x. (from_trimmed x).segments) t
    ∙ ap (λ x. x.segments) (above-from_trimmed name)
    ∙ split_segments-slash (codes "../" ++ name) refl
    ∙ rw (split-name name n.0, n.1) refl

pop-snoc : (pre : List Component) (c : Component) → pop (pre ++ (c ∷ [])) ≡ pre
unfolding pop
pop-snoc [] c = refl
pop-snoc (d ∷ []) c = refl
pop-snoc (d ∷ e ∷ pre) c = ap (◌∷◌ d) (pop-snoc (e ∷ pre) c)

abbrev name_of : Component → Text
name_of cur_dir = []
name_of parent_dir = []
name_of (normal name) = name

not_below :
    (pre rest : List Component) (name last : Text)
    → pre ++ (normal name ∷ []) ≡ (pre ++ (normal last ∷ [])) ++ rest
    → name ≡ last
not_below [] rest name last e = ap name_of (head-eq_of_cons-eq e)
not_below (c ∷ pre) rest name last e = not_below pre rest name last (tail-eq_of_cons-eq e)

-- A destination that is given by names alone, the last of them `last`: the join does not validate,
-- so a path `../name` of another name lands beside it, in the directory above, and not below it.
pub join_relative_path-above :
    (rooted : Bool) (pre : List Component) (last name : Text)
    → All IsPlain (pre ++ (normal last ∷ []))
    → IsName name
    → trim (codes "../" ++ name) ≡ codes "../" ++ name
    → name ≢ last
    → let root : LocalPath = record { rooted = rooted; components = pre ++ (normal last ∷ []) } in
      ((join_relative_path root (codes "../" ++ name)).components ≡ pre ++ (normal name ∷ []))
      × ((rest : List Component)
          → (join_relative_path root (codes "../" ++ name)).components ≢ root.components ++ rest)
unfolding join_relative_path append to_local walk enter push
join_relative_path-above rooted pre last name plain n t other =
    let root : LocalPath = record { rooted = rooted; components = pre ++ (normal last ∷ []) } in
    let r = is_rooted (from_local root).kind in
    let start = (from_local root).segments in
    let beside : (join_relative_path root (codes "../" ++ name)).components
        ≡ pre ++ (normal name ∷ []) =
      rw (above-from_str name n t) (
        walk-append r [] start (dots ∷ name ∷ [])
        ∙ rw (n.3, n.1, n.2)
            (ap (λ c. pop c ++ (normal name ∷ [])) (walk-from_local root plain)
              ∙ ap (λ c. c ++ (normal name ∷ [])) (pop-snoc pre (normal last)))) in
    (beside, λ rest e. other (not_below pre rest name last (sym beside ∙ e)))

-- A relative destination that begins with `..` is taken for the same path without it.
to_local-parent_dir :
    (cs : List Component)
    → to_local (from_local (record { rooted = false; components = parent_dir ∷ cs }))
      ≡ to_local (from_local (record { rooted = false; components = cs }))
unfolding to_local from_local segments_of walk pop
to_local-parent_dir cs = refl
