-- ===== src/Tests/Swapping.antt =====
-- The swap, the retry and the guard of shim/src/lib.rs on a file system that is a function.
use chroma_go_local.Base.{
  subst, ℕ, suc, ◌+◌, ◌≡◌, ◌≢◌, refl, Bool, true, false, if◌then◌else◌, Bool-cases, inl, inr,
  Option, none, some, [], ◌∷◌, arith, Result, ok, err,
}
use chroma_go_local.Base.Actions.{Ends}
use chroma_go_local.Base.Maps.{text_eq, text_beq, text_beq_iff}
use chroma_go_local.Base.Text.{Text, text}
use chroma_go_local.Rebuild.Swap.{
  FilePath, SwapFsOps, moved_source, swap_rebuilt_index_dir_with_ops,
}
use chroma_go_local.Rebuild.Swap.Contents.{FsLaws, IsSwapped, IsRestored, swap_all_or_nothing}
use chroma_go_local.Rebuild.Retry.{OsError, run_with_windows_fs_retry, Counted, retry_tries}
use chroma_go_local.Rebuild.TempDir.{
  TempRebuildDirGuard, new, disarm, remove_now, drop_guard, Settled, remove_then_drop,
}

unfoldable pub path_beq : FilePath → FilePath → Bool
path_beq [] [] = true
path_beq [] (b ∷ q) = false
path_beq (a ∷ p) [] = false
path_beq (a ∷ p) (b ∷ q) = let rest = path_beq p q in if text_beq a b then rest else false

pub path_beq-eq : (p q : FilePath) → path_beq p q ≡ true → p ≡ q
unfolding path_beq
path_beq-eq [] [] h = refl
path_beq-eq [] (b ∷ q) h = cc
path_beq-eq (a ∷ p) [] h = cc
path_beq-eq (a ∷ p) (b ∷ q) h = ground (arith, path_beq-eq p q, text_beq_iff a b)

pub path_beq_refl : (p : FilePath) → path_beq p p ≡ true
unfolding path_beq
path_beq_refl [] = refl
path_beq_refl (a ∷ p) = ground (arith, path_beq_refl p, text_beq_iff a a)

pub path_beq-false : (p q : FilePath) → p ≢ q → path_beq p q ≡ false
path_beq-false p q d = elim (Bool-cases (path_beq p q)) [
  | inl same ↦ absurd (d (path_beq-eq p q same))
  | inr other ↦ other
]

-- What stands at each path.
abbrev pub Files : Type 0
Files = FilePath → Option Text

abbrev pub moved_files : FilePath → FilePath → Files → Files
moved_files from to s p = if path_beq p from then none else (if path_beq p to then s from else s p)

-- A rename of a path to itself is refused, any other one is made.
abbrev pub rename_files : Bool → FilePath → FilePath → Files → Result (Unit {0}) Text × Files
rename_files true from to s = (err (text "same path"), s)
rename_files false from to s = (ok tt, moved_files from to s)

abbrev ops : SwapFsOps
ops = record {
  Fs = Files;
  IoError = Text;
  show_error = λ e. e;
  rename = λ from to s. rename_files (path_beq from to) from to s;
  remove_dir_all = λ dir s. (ok tt, λ p. if path_beq p dir then none else s p);
}

-- What a rename promises, of its result `r`.
abbrev pub Renamed : FilePath → FilePath → Files → Result (Unit {0}) Text × Files → Type 0
Renamed from to s (ok done, s') =
    (s' to ≡ s from) × (s' from ≡ none) × ((p : FilePath) → p ≢ from → p ≢ to → s' p ≡ s p)
Renamed from to s (err e, s') = (p : FilePath) → s' p ≡ s p

pub rename_files-Renamed :
    (b : Bool) (from to : FilePath) (s : Files)
    → path_beq from to ≡ b
    → Renamed from to s (rename_files b from to s)
rename_files-Renamed true from to s e = λ p. refl
rename_files-Renamed false from to s e =
    let other : path_beq to from ≡ false =
      path_beq-false to from (λ q. let bad : ⊥ = cc (e, path_beq_refl from, q) in absurd bad) in
    (
      rw (other, path_beq_refl to),
      rw (path_beq_refl from),
      λ p x y. rw (path_beq-false p from x, path_beq-false p to y),
    )

-- The promise, read off a result that is known.
Renamed-at :
    (from to : FilePath) (s : Files) (r : Result (Unit {0}) Text × Files)
    → rename_files (path_beq from to) from to s ≡ r
    → Renamed from to s r
Renamed-at from to s r e =
    subst (Renamed from to s) e (rename_files-Renamed (path_beq from to) from to s refl)

ops-laws : FsLaws ops
ops-laws = record {
  Tree = Text;
  at = λ s p. s p;
  moves = λ from to s s' e. Renamed-at from to s _ e;
  stays = λ from to s s' x e. Renamed-at from to s _ e;
  removes = λ dir p s d. rw (path_beq-false p dir d);
}

abbrev pub files : Files
files p = if path_beq p (text "index" ∷ []) then some (text "old") else some (text "new")

abbrev waiting : FilePath
waiting = moved_source [] (text "index") true (text "1")

differ : (p q : FilePath) → path_beq p q ≡ false → p ≢ q
differ p q e h = let bad : ⊥ = cc (e, h, path_beq_refl p) in absurd bad

index_rebuilt : text "index" ∷ [] ≢ text "next" ∷ []
unfolding path_beq text text_beq
index_rebuilt = differ _ _ refl

index_waiting : text "index" ∷ [] ≢ waiting
unfolding path_beq text moved_source text_beq
index_waiting = differ _ _ refl

rebuilt_waiting : text "next" ∷ [] ≢ waiting
unfolding path_beq text moved_source text_beq
rebuilt_waiting = differ _ _ refl

swap_all_or_nothing_example :
    Ends
      (λ r s'.
        IsSwapped ops ops-laws
          (text "index" ∷ [])
          (text "next" ∷ [])
          waiting
          index_rebuilt
          index_waiting
          rebuilt_waiting
          true
          files
          s')
      (λ e s'.
        IsRestored ops ops-laws
          (text "index" ∷ [])
          (text "next" ∷ [])
          waiting
          index_rebuilt
          index_waiting
          rebuilt_waiting
          e
          files
          s')
      (swap_rebuilt_index_dir_with_ops ops
        (text "index" ∷ [])
        (text "next" ∷ [])
        true
        (text "1")
        files)
swap_all_or_nothing_example =
    swap_all_or_nothing ops ops-laws (text "index") (text "1") [] (text "next" ∷ []) true files
      index_rebuilt index_waiting rebuilt_waiting

-- A file that is locked until the third try; the state counts tries.
abbrev locked_file : ℕ → Result (Unit {0}) OsError × ℕ
locked_file s = (
  err (record {
    raw_os_error = some 32;
    permission_denied = false;
    not_found = false;
    shown = text "locked";
  }),
  s + 1,
)

one_more : (s : ℕ) → (locked_file s).1 ≡ suc s
one_more s = omega arith

retry_tries_example :
    Counted true
      (λ d s. s)
      locked_file
      (λ s. s)
      one_more
      (λ d s. refl)
      0
      6
      (run_with_windows_fs_retry true (λ d s. s) locked_file 0)
retry_tries_example = retry_tries true (λ d s. s) locked_file (λ s. s) one_more (λ d s. refl) 0

abbrev guard : TempRebuildDirGuard
guard = new (text "tmp" ∷ [])

remove_then_drop_example :
    Settled {S = ℕ} (λ p s. (ok tt, s + 1)) guard (remove_now (λ p s. (ok tt, s + 1)) guard 0)
    × (remove_now (λ p s. (ok tt, s + 1)) (disarm guard) 0 ≡ (ok tt, disarm guard, 0))
    × (drop_guard (λ p s. (ok tt, s + 1)) (disarm guard) 0 ≡ 0)
remove_then_drop_example = remove_then_drop (λ p s. (ok tt, s + 1)) guard 0
