-- ===== src/ShellCopy/Ledger.antt =====
-- The ledger that an attempt leaves is the one that the next attempt starts with.
use mathlib.Core.List.{foldl}
use cross_host_ops.Base.{
  ◌≡◌, refl, subst, ◌∙◌, inl, inr, List, [], ◌∷◌, map, Option, none, some, arith, find, All, Text,
  text_eq, text_eq_iff, Bool-cases, lookup, insert, Distinct, lookup-insert, insert-Distinct,
}
use cross_host_ops.ShellCopy.{
  ResumeEntry, ResumeLedger, add_entry, from_entries, insert_sorted, sort_entries, into_entries,
}

abbrev named : Text → List ResumeEntry → Option ResumeEntry
named name es = find (λ e. text_eq e.relative_path name) es

abbrev pub Keyed : ResumeLedger → Type 0
Keyed ledger = All (λ p. p.1.relative_path ≡ p.0) ledger

-- Each entry stands under its own name, and once.
abbrev pub IsLedger : ResumeLedger → Type 0
IsLedger ledger = Keyed ledger × Distinct ledger

insert-Keyed :
    (name : Text) (e : ResumeEntry) (m : ResumeLedger)
    → e.relative_path ≡ name
    → Keyed m
    → Keyed (insert name e m)
insert-Keyed name e [] h k = (h, tt)
insert-Keyed name e ((j, x) ∷ m) h k = elim (Bool-cases (text_eq j name)) [
  | inl t ↦ rw t (h, k.1)
  | inr t ↦ rw t (k.0, insert-Keyed name e m h k.1)
]

pub insert-IsLedger :
    (name : Text) (e : ResumeEntry) (m : ResumeLedger)
    → e.relative_path ≡ name
    → IsLedger m
    → IsLedger (insert name e m)
insert-IsLedger name e m h (k, d) = (insert-Keyed name e m h k, insert-Distinct name e m d)

foldl-IsLedger :
    (es : List ResumeEntry) (m : ResumeLedger) → IsLedger m → IsLedger (foldl add_entry m es)
foldl-IsLedger [] m v = v
foldl-IsLedger (e ∷ es) m v =
    foldl-IsLedger es (add_entry m e) (insert-IsLedger e.relative_path e m refl v)

pub from_entries-IsLedger : (es : List ResumeEntry) → IsLedger (from_entries es)
unfolding from_entries
from_entries-IsLedger es = foldl-IsLedger es [] (tt, tt)

-- No name stands twice.
abbrev Once : List ResumeEntry → Type 0
Once [] = Unit
Once (e ∷ es) = (named e.relative_path es ≡ none) × Once es

abbrev or_else : Option ResumeEntry → Option ResumeEntry → Option ResumeEntry
or_else none o = o
or_else (some e) o = some e

or_else-none : (o : Option ResumeEntry) → or_else o none ≡ o
or_else-none none = refl
or_else-none (some e) = refl

lookup-foldl :
    (name : Text) (es : List ResumeEntry) (m : ResumeLedger)
    → Once es
    → lookup name (foldl add_entry m es) ≡ or_else (named name es) (lookup name m)
lookup-foldl name [] m u = refl
lookup-foldl name (e ∷ es) m (n, u) =
    let ih = lookup-foldl name es (add_entry m e) u in
    let here = lookup-insert e.relative_path name e m in
    elim (Bool-cases (text_eq e.relative_path name)) [
      | inl t ↦
          let same = (text_eq_iff e.relative_path name).0 t in
          let no_later : named name es ≡ none = subst (λ k. named k es ≡ none) same n in
          ih ∙ rw (no_later, here, t) refl
      | inr t ↦ ih ∙ rw (here, t) refl
    ]

named-insert_sorted :
    (name : Text) (e : ResumeEntry) (es : List ResumeEntry)
    → named e.relative_path es ≡ none
    → named name (insert_sorted e es) ≡ named name (e ∷ es)
unfolding insert_sorted
named-insert_sorted name e [] n = refl
named-insert_sorted name e (x ∷ es) n = ground (
  arith,
  text_eq_iff e.relative_path name,
  text_eq_iff x.relative_path name,
  text_eq_iff x.relative_path e.relative_path,
  named-insert_sorted name e es,
)

Once-insert_sorted :
    (e : ResumeEntry) (es : List ResumeEntry)
    → named e.relative_path es ≡ none
    → Once es
    → Once (insert_sorted e es)
unfolding insert_sorted
Once-insert_sorted e [] n u = (refl, tt)
Once-insert_sorted e (x ∷ es) n u = ground (
  arith,
  text_eq_iff e.relative_path x.relative_path,
  text_eq_iff x.relative_path e.relative_path,
  named-insert_sorted x.relative_path e es,
  Once-insert_sorted e es,
)

named-sort_entries :
    (name : Text) (es : List ResumeEntry) → Once es → named name (sort_entries es) ≡ named name es
unfolding sort_entries
named-sort_entries name [] u = refl
named-sort_entries name (e ∷ es) (n, u) =
    named-insert_sorted name e (sort_entries es) (named-sort_entries e.relative_path es u ∙ n)
    ∙ rw (named-sort_entries name es u) refl

sort_entries-Once : (es : List ResumeEntry) → Once es → Once (sort_entries es)
unfolding sort_entries
sort_entries-Once [] u = tt
sort_entries-Once (e ∷ es) (n, u) =
    Once-insert_sorted e (sort_entries es) (named-sort_entries e.relative_path es u ∙ n)
      (sort_entries-Once es u)

named-map :
    (name : Text) (m : ResumeLedger) → Keyed m → named name (map (λ p. p.1) m) ≡ lookup name m
named-map name [] k = refl
named-map name ((j, e) ∷ m) (h, k) = rw (h, named-map name m k) refl

Once-map : (m : ResumeLedger) → Keyed m → Distinct m → Once (map (λ p. p.1) m)
Once-map [] k d = tt
Once-map ((j, e) ∷ m) (h, k) (n, d) = (named-map e.relative_path m k ∙ rw h n, Once-map m k d)

-- The ledger that an attempt leaves has the entries that it had, by each name, when the next
-- attempt has read it.
pub from_entries-into_entries :
    (ledger : ResumeLedger) (name : Text)
    → IsLedger ledger
    → lookup name (from_entries (into_entries ledger)) ≡ lookup name ledger
unfolding from_entries into_entries
from_entries-into_entries ledger name (k, d) =
    let es = map (λ p. p.1) ledger in
    let u = Once-map ledger k d in
    let sorted = named-sort_entries name es u ∙ named-map name ledger k in
    lookup-foldl name (sort_entries es) [] (sort_entries-Once es u)
    ∙ rw sorted (or_else-none (lookup name ledger))
