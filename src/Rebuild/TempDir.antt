-- ===== src/Rebuild/TempDir.antt =====
-- `TempRebuildDirGuard` of shim/src/lib.rs: the temporary directory of a rebuild goes when the
-- guard is dropped, unless it was disarmed or already removed.
use chroma_go_local.Base.{◌≡◌, refl, Bool, true, false, ◌++◌, Result, ok, err, Bool-cases, inl, inr}
use chroma_go_local.Base.Actions.{Action}
use chroma_go_local.Base.Text.{Text, text}
use chroma_go_local.Rebuild.Swap.{FilePath, display}

pub record TempRebuildDirGuard : Type 0 where
  pub path : FilePath
  pub active : Bool

-- `ErrorKind::NotFound`, or another error with its text.
pub data RemoveError : Type 0 where
  not_found : RemoveError
  other : Text → RemoveError

unfoldable pub new : FilePath → TempRebuildDirGuard
new path = record { path = path; active = true }

unfoldable pub disarm : TempRebuildDirGuard → TempRebuildDirGuard
disarm g = record g { active = false }

module _ {S : Type 0} (remove_dir_all : FilePath → Action S RemoveError (Unit {0})) where
  -- The guard after a removal, and what the caller gets.
  removed :
      TempRebuildDirGuard
      → Result (Unit {0}) RemoveError × S
      → Result (Unit {0}) Text × TempRebuildDirGuard × S
  removed g (ok done, s) = (ok tt, disarm g, s)
  removed g (err not_found, s) = (ok tt, disarm g, s)
  removed g (err (other e), s) = (
    err (
        text "failed to remove temporary rebuild directory "
        ++ (display g.path ++ (text ": " ++ e))),
    g,
    s,
  )

  unfoldable pub remove_now :
      TempRebuildDirGuard → S → Result (Unit {0}) Text × TempRebuildDirGuard × S
  unfolding removed disarm
  remove_now g s = elim g.active [
    | true ↦ removed g (remove_dir_all g.path s)
    | false ↦ (ok tt, g, s)
  ]

  removed-kept :
      (g : TempRebuildDirGuard) (r : Result (Unit {0}) RemoveError × S)
      → ((removed g r).2 ≡ r.1) × ((removed g r).1.path ≡ g.path)
  unfolding removed disarm
  removed-kept g (ok done, s) = (refl, refl)
  removed-kept g (err not_found, s) = (refl, refl)
  removed-kept g (err (other e), s) = (refl, refl)

  -- What a removal by the guard does to the world, and to the guard's path.
  pub remove_now-kept :
      (g : TempRebuildDirGuard) (s : S)
      → g.active ≡ true
      → ((remove_now g s).2 ≡ (remove_dir_all g.path s).1) × ((remove_now g s).1.path ≡ g.path)
  unfolding remove_now
  remove_now-kept g s on = rw (on, remove_now) (removed-kept g (remove_dir_all g.path s))

  -- A failure of the removal is ignored.
  unfoldable pub drop_guard : TempRebuildDirGuard → S → S
  drop_guard g s = elim g.active [ true ↦ (remove_dir_all g.path s).1 | false ↦ s ]

  abbrev pub Settled :
      TempRebuildDirGuard → Result (Unit {0}) Text × TempRebuildDirGuard × S → Type 0
  Settled g (ok done, g', s') = drop_guard g' s' ≡ s'
  Settled g (err e, g', s') = drop_guard g' s' ≡ (remove_dir_all g.path s').1

  removed-Settled :
      (g : TempRebuildDirGuard) (r : Result (Unit {0}) RemoveError × S)
      → g.active ≡ true
      → Settled g (removed g r)
  unfolding removed disarm drop_guard
  removed-Settled g (ok done, s') h = refl
  removed-Settled g (err not_found, s') h = refl
  removed-Settled g (err (other m), s') h = rw (h, drop_guard)

  -- Removing the directory and then dropping the guard: a removal that succeeded is not made
  -- again by the drop, and after one that failed the drop tries it again. A disarmed guard
  -- removes nothing, neither way.
  pub remove_then_drop :
      (g : TempRebuildDirGuard) (s : S)
      → Settled g (remove_now g s)
        × (remove_now (disarm g) s ≡ (ok tt, disarm g, s))
        × (drop_guard (disarm g) s ≡ s)
  unfolding remove_now disarm drop_guard
  remove_then_drop g s = elim (Bool-cases g.active) [
    | inl on ↦ (rw (on, remove_now) (removed-Settled g (remove_dir_all g.path s) on), refl, refl)
    | inr off ↦ (rw (off, remove_now) (rw (off, drop_guard)), refl, refl)
  ]
