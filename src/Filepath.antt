-- ===== src/Filepath.antt =====
-- Paths that are the same for every system: `NormalizedPath` and the operand `host:path` of
-- src/filepath.rs, with `join_relative_path` of src/copy_frames.rs.
--
-- A local path is what the standard library's `Path` is on Unix: rooted or not, and a list of
-- components. `PathBuf::push` of a name and `PathBuf::pop` are written for such a list; a name holds
-- no `/` where `push` is called, and a `.` behind another component does not show.
pub mod RoundTrip
pub mod Under
pub mod Operand
mod Tests
use cross_host_ops.Base.{
  ℕ, ◌+◌, ◌-◌, ◌≡◌, Bool, true, false, not, ◌&&◌, ◌||◌, List, [], ◌∷◌, ◌++◌, Option, none, some,
  length, any, all, retain, ltb, leb, ◌==◌, if◌then◌else◌, Result, ok, err, Text, codes, text_eq,
  contains_char, is_empty, starts_with, split, join, is_alpha, is_alphanumeric, backslash, trim,
}

pub data PathKind : Type 0 where
  absolute relative : PathKind
  windows_drive : ℕ → PathKind

pub record NormalizedPath : Type 0 where
  pub segments : List Text
  pub kind : PathKind

abbrev pub slash : ℕ
slash = b'/'

abbrev pub colon : ℕ
colon = b':'

-- `split_segments`: only a path with no `/` at all is split at `\`.
pub split_segments : Text → List Text
split_segments s =
    retain (λ p. not (is_empty p))
      (split (if contains_char backslash s && not (contains_char slash s) then backslash else slash)
        s)

-- `<letter>:[/\]`
pub has_drive : Text → Bool
has_drive (a ∷ b ∷ c ∷ s) = is_alpha a && (b == colon && (c == backslash || c == slash))
has_drive _ = false

abbrev pub to_upper : ℕ → ℕ
to_upper c = if leb b'a' c && leb c b'z' then c - 32 else c

abbrev pub strip_dot : Text → Text
strip_dot (a ∷ b ∷ c ∷ s) =
    if a == b'.' && (b == slash || b == backslash) then c ∷ s else a ∷ b ∷ c ∷ s
strip_dot s = s

abbrev pub tail2 : Text → Text
tail2 (a ∷ b ∷ s) = s
tail2 s = []

abbrev pub head_or : ℕ → Text → ℕ
head_or d [] = d
head_or d (c ∷ s) = c

pub from_trimmed : Text → NormalizedPath
unfolding split_segments has_drive
from_trimmed s =
    if is_empty s
    then record { segments = []; kind = relative }
    else if has_drive s
    then record {
      segments = split_segments (tail2 s);
      kind = windows_drive (to_upper (head_or 0 s));
    }
    else if starts_with (slash ∷ []) s
    then record { segments = split_segments s; kind = absolute }
    else record { segments = split_segments (strip_dot s); kind = relative }

pub from_str : Text → NormalizedPath
unfolding from_trimmed
from_str s = from_trimmed (trim s)

-- Every segment behind a `/`.
pub slashed : List Text → Text
slashed [] = []
slashed (p ∷ ps) = slash ∷ (p ++ slashed ps)

pub to_string_normalized : NormalizedPath → Text
unfolding slashed
to_string_normalized p = by_kind p.kind
  where
    by_kind : PathKind → Text
    by_kind (windows_drive drive) = drive ∷ colon ∷ slashed p.segments
    by_kind absolute = slash ∷ join (slash ∷ []) p.segments
    by_kind relative = join (slash ∷ []) p.segments

pub append : NormalizedPath → Text → NormalizedPath
append p other = record p { segments = p.segments ++ (from_str other).segments }

pub last : List Text → Option Text
last [] = none
last (p ∷ []) = some p
last (p ∷ q ∷ ps) = last (q ∷ ps)

pub basename : NormalizedPath → Option Text
unfolding last
basename p = last p.segments

pub drop_last : List Text → List Text
drop_last [] = []
drop_last (p ∷ []) = []
drop_last (p ∷ q ∷ ps) = p ∷ drop_last (q ∷ ps)

pub parent : NormalizedPath → Option NormalizedPath
unfolding drop_last
parent p =
    if any (λ s. true) p.segments then some (record p { segments = drop_last p.segments }) else none

pub data PathError : Type 0 where
  not_relative has_parent : PathError

abbrev pub dots : Text
dots = codes ".."

abbrev pub is_relative : PathKind → Bool
is_relative relative = true
is_relative absolute = false
is_relative (windows_drive d) = false

pub validate_relative : NormalizedPath → Result PathError (Unit {0})
validate_relative p =
    if not (is_relative p.kind)
    then err not_relative
    else if any (λ s. text_eq s dots) p.segments
    then err has_parent
    else ok tt

pub non_empty_name : Text → Text → Text
non_empty_name value fallback = if is_empty (trim value) then fallback else trim value

pub copy_entry_name : Text → Text → Text → Text
unfolding non_empty_name
copy_entry_name relative_path source_name fallback = by_name (basename (from_str relative_path))
  where
    by_name : Option Text → Text
    by_name none = non_empty_name source_name fallback
    by_name (some name) = if is_empty name then non_empty_name source_name fallback else name

-- Local paths.
pub data Component : Type 0 where
  cur_dir parent_dir : Component
  normal : Text → Component

pub record LocalPath : Type 0 where
  pub rooted : Bool
  pub components : List Component

pub segments_of : List Component → List Text
segments_of [] = []
segments_of (cur_dir ∷ cs) = segments_of cs
segments_of (parent_dir ∷ cs) = dots ∷ segments_of cs
segments_of (normal name ∷ cs) = name ∷ segments_of cs

pub from_local : LocalPath → NormalizedPath
unfolding segments_of
from_local path = record {
  segments = segments_of path.components;
  kind = if path.rooted then absolute else relative;
}

-- `PathBuf::pop`
pub pop : List Component → List Component
pop [] = []
pop (c ∷ []) = []
pop (c ∷ d ∷ cs) = c ∷ pop (d ∷ cs)

abbrev pub at_start : Bool → List Component → Bool
at_start rooted [] = not rooted
at_start rooted (c ∷ cs) = false

-- `PathBuf::push` of one name.
pub push : Bool → List Component → Text → List Component
push rooted cs seg =
    if text_eq seg (codes ".")
    then (if at_start rooted cs then cur_dir ∷ [] else cs)
    else cs ++ (normal seg ∷ [])

-- One turn of the loop of `to_local`, and the loop.
pub enter : Bool → List Component → Text → List Component
unfolding pop push
enter rooted cs seg =
    if text_eq seg dots then pop cs else if is_empty seg then cs else push rooted cs seg

pub walk : Bool → List Component → List Text → List Component
unfolding enter
walk rooted cs [] = cs
walk rooted cs (seg ∷ segs) = walk rooted (enter rooted cs seg) segs

abbrev pub is_rooted : PathKind → Bool
is_rooted kind = not (is_relative kind)

-- On Unix; the pseudo component `C:` of a drive is outside the model, which has no drives here.
pub to_local : NormalizedPath → LocalPath
unfolding walk
to_local p = record {
  rooted = is_rooted p.kind;
  components = walk (is_rooted p.kind) [] p.segments;
}

pub join_relative_path : LocalPath → Text → LocalPath
unfolding from_local append to_local
join_relative_path root relative_path = to_local (append (from_local root) relative_path)

-- `spec::parse_remote`.
pub record RemoteSpec : Type 0 where
  pub target : Text
  pub path : NormalizedPath

pub looks_like_path_start : Text → Bool
unfolding has_drive
looks_like_path_start [] = false
looks_like_path_start (c ∷ s) = (c == slash || c == b'~') || has_drive (c ∷ s)

-- The last colon with such a text behind it: the texts around it.
pub best_split : Text → Option (Text × Text)
unfolding looks_like_path_start
best_split [] = none
best_split (c ∷ s) = later (best_split s)
  where
    later : Option (Text × Text) → Option (Text × Text)
    later (some (a, b)) = some (c ∷ a, b)
    later none = if c == colon && looks_like_path_start s then some ([], s) else none

abbrev pub is_host_char : ℕ → Bool
is_host_char c = is_alphanumeric c || any (λ d. c == d) (codes "._-")

pub is_valid_target : Text → Bool
is_valid_target target =
    not (is_empty target || (text_eq target (codes ".") || text_eq target dots))
    && (not (contains_char slash target || contains_char backslash target)
        && all (λ seg. not (is_empty seg) && all is_host_char seg) (split colon target))

pub parse_remote : Text → Option RemoteSpec
unfolding has_drive best_split is_valid_target
parse_remote value = if has_drive value then none else check (best_split value)
  where
    check : Option (Text × Text) → Option RemoteSpec
    check none = none
    check (some (target, path)) =
        if not (is_valid_target target) || is_empty path
        then none
        else some (record { target = target; path = from_str path })
