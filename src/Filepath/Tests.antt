-- ===== src/Filepath/Tests.antt =====
-- Paths and operands at concrete texts.
use cross_host_ops.Base.{arith, ◌≡◌, refl, true, [], ◌∷◌, codes, backslash, trim}
use cross_host_ops.Filepath.{
  relative, windows_drive, NormalizedPath, LocalPath, normal, colon, from_str, to_string_normalized,
  validate_relative, join_relative_path, to_local, from_local, pop, copy_entry_name, basename,
  append,
}
use cross_host_ops.Filepath.Under.{join_relative_path-under, join_relative_path-above}
use cross_host_ops.Filepath.RoundTrip.{from_str-to_string_normalized}

abbrev data_dir : LocalPath
data_dir = record { rooted = true; components = normal (codes "srv") ∷ normal (codes "data") ∷ [] }

join_relative_path-under_example : (join_relative_path data_dir (codes "a/b")).rooted ≡ true
unfolding validate_relative from_str trim
join_relative_path-under_example =
    (join_relative_path-under data_dir (codes "a/b") ((refl, refl, refl), ((refl, refl, refl), tt))
      refl).0

join_relative_path-above_example :
    (join_relative_path data_dir (codes "../x")).components
    ≡ normal (codes "srv") ∷ normal (codes "x") ∷ []
unfolding trim
join_relative_path-above_example =
    (join_relative_path-above true (normal (codes "srv") ∷ []) (codes "data") (codes "x")
      ((refl, refl, refl), ((refl, refl, refl), tt)) (refl, refl, refl, refl) refl
      (λ e. absurd (ground arith))).0

lands_beside :
    (join_relative_path data_dir (codes "../x")).components
    ≡ normal (codes "srv") ∷ normal (codes "x") ∷ []
unfolding join_relative_path to_local from_local pop append from_str trim
lands_beside = refl

abbrev drive_path : NormalizedPath
drive_path = record { segments = codes "Users" ∷ codes "x" ∷ []; kind = windows_drive b'C' }

from_str-to_string_normalized_example : from_str (to_string_normalized drive_path) ≡ drive_path
unfolding trim to_string_normalized
from_str-to_string_normalized_example =
    from_str-to_string_normalized drive_path (refl, refl, refl) ((refl, refl), ((refl, refl), tt))
      refl

drive_root_is_lost :
    from_str (to_string_normalized (from_str (b'C' ∷ colon ∷ backslash ∷ [])))
    ≡ record { segments = codes "C:" ∷ []; kind = relative }
unfolding from_str to_string_normalized trim
drive_root_is_lost = refl

entry_names :
    copy_entry_name (codes "logs/app.log") (codes "src") (codes "upload") ≡ codes "app.log"
unfolding copy_entry_name basename from_str trim
entry_names = refl
