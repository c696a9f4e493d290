-- ===== src/Filepath/RoundTrip.antt =====
-- The wire form of a path, read again, is the path.
use cross_host_ops.Base.{
  ℕ, ◌≡◌, refl, ap, ◌∙◌, true, false, not, List, [], ◌∷◌, ◌++◌, append-nil, arith, All, retain,
  Text, ◌==◌, contains_char, is_empty, split, join, trim, is_alpha, or_false,
}
use cross_host_ops.Filepath.{
  PathKind, absolute, relative, windows_drive, NormalizedPath, slash, to_upper, has_drive,
  from_trimmed, from_str, slashed, to_string_normalized,
}
use cross_host_ops.Filepath.Under.{split_segments-slash}

-- A segment is not empty and holds no `/`.
abbrev pub IsSegment : Text → Type 0
IsSegment p = (is_empty p ≡ false) × (contains_char slash p ≡ false)

split-append :
    (p s : Text)
    → contains_char slash p ≡ false
    → split slash (p ++ (slash ∷ s)) ≡ p ∷ split slash s
split-append [] s h = refl
split-append (c ∷ p) s h =
    let (other, later) = or_false (c == slash) (contains_char slash p) h in
    rw (other, split-append p s later) refl

split-whole : (p : Text) → contains_char slash p ≡ false → split slash p ≡ p ∷ []
split-whole [] h = refl
split-whole (c ∷ p) h =
    let (other, later) = or_false (c == slash) (contains_char slash p) h in
    rw (other, split-whole p later) refl

abbrev kept : List Text → List Text
kept ps = retain (λ p. not (is_empty p)) ps

kept-join : (ps : List Text) → All IsSegment ps → kept (split slash (join (slash ∷ []) ps)) ≡ ps
kept-join [] h = refl
kept-join (p ∷ []) h = rw (split-whole p h.0.1, h.0.0) refl
kept-join (p ∷ q ∷ ps) h =
    rw (split-append p (join (slash ∷ []) (q ∷ ps)) h.0.1, h.0.0)
      (ap (◌∷◌ p) (kept-join (q ∷ ps) h.1))

kept-slashed : (ps : List Text) → All IsSegment ps → kept (split slash (slashed ps)) ≡ ps
unfolding slashed
kept-slashed [] h = refl
kept-slashed (p ∷ []) h = rw (append-nil p, split-whole p h.0.1, h.0.0) refl
kept-slashed (p ∷ q ∷ ps) h =
    rw (split-append p (q ++ slashed ps) h.0.1, h.0.0) (ap (◌∷◌ p) (kept-slashed (q ∷ ps) h.1))

-- `/` and segments, or a drive, which is a capital letter, and at least one segment. A relative path
-- and the root of a drive are neither.
abbrev pub IsAbsoluteOrOnDriveKind : PathKind → List Text → Type 0
IsAbsoluteOrOnDriveKind absolute ps = Unit
IsAbsoluteOrOnDriveKind relative ps = ⊥
IsAbsoluteOrOnDriveKind (windows_drive d) ps =
    (is_alpha d ≡ true) × (to_upper d ≡ d) × (is_empty (slashed ps) ≡ false)

abbrev pub IsAbsoluteOrOnDrive : NormalizedPath → Type 0
IsAbsoluteOrOnDrive p = IsAbsoluteOrOnDriveKind p.kind p.segments

slash_first : (ps : List Text) → has_drive (slash ∷ join (slash ∷ []) ps) ≡ false
unfolding has_drive
slash_first ps = two (join (slash ∷ []) ps)
  where
    two : (s : Text) → has_drive (slash ∷ s) ≡ false
    two [] = refl
    two (a ∷ []) = refl
    two (a ∷ b ∷ s) = refl

absolute-back :
    (ps : List Text)
    → All IsSegment ps
    → from_trimmed (to_string_normalized (record { segments = ps; kind = absolute }))
      ≡ record { segments = ps; kind = absolute }
unfolding from_trimmed to_string_normalized
absolute-back ps h =
    rw (slash_first ps, split_segments-slash (slash ∷ join (slash ∷ []) ps) refl, kept-join ps h)
      refl

drive-back :
    (d : ℕ) (ps : List Text)
    → is_alpha d ≡ true
    → to_upper d ≡ d
    → is_empty (slashed ps) ≡ false
    → All IsSegment ps
    → from_trimmed (to_string_normalized (record { segments = ps; kind = windows_drive d }))
      ≡ record { segments = ps; kind = windows_drive d }
unfolding from_trimmed to_string_normalized slashed has_drive
drive-back d [] letter capital some_left h = absurd (ground arith)
drive-back d (p ∷ ps) letter capital some_left h =
    let body = slashed (p ∷ ps) in
    rw (letter, capital, split_segments-slash body refl, kept-slashed (p ∷ ps) h) refl

rooted-back :
    (k : PathKind) (ps : List Text)
    → IsAbsoluteOrOnDriveKind k ps
    → All IsSegment ps
    → from_trimmed (to_string_normalized (record { segments = ps; kind = k }))
      ≡ record { segments = ps; kind = k }
rooted-back absolute ps rooted h = absolute-back ps h
rooted-back relative ps rooted h = absurd rooted
rooted-back (windows_drive d) ps rooted h = drive-back d ps rooted.0 rooted.1 rooted.2 h

-- An absolute path, or a path on a drive with at least one segment (so not the root of the drive) and
-- a capital letter, whose segments are not empty and hold no `/`: written in the wire form and read
-- again, it is the same path, if its wire form has no blanks at its ends, which reading takes off.
pub from_str-to_string_normalized :
    (p : NormalizedPath)
    → IsAbsoluteOrOnDrive p
    → All IsSegment p.segments
    → trim (to_string_normalized p) ≡ to_string_normalized p
    → from_str (to_string_normalized p) ≡ p
unfolding from_str
from_str-to_string_normalized p rooted h t =
    ap from_trimmed t ∙ rooted-back p.kind p.segments rooted h
