-- ===== src/Rebuild/Swap.antt =====
-- `swap_rebuilt_index_dir_with_ops` of shim/src/lib.rs: the rebuilt index takes the place of the
-- old one by two renames, with a rollback when the second one fails.
use chroma_go_local.Base.{
  Bool, true, false, Option, none, some, List, [], ◌∷◌, ◌++◌, Result, ok, err, ok_or,
}
use chroma_go_local.Base.Actions.{Action, pure, fail, ◌>>=◌, lift, when, map_err, attempt}
use chroma_go_local.Base.Text.{Text, text}
pub mod Contents

-- A path is its components, the last one first; the root has no parent and no name.
abbrev pub FilePath : Type 0
FilePath = List Text

abbrev pub parent : FilePath → Option FilePath
parent [] = none
parent (name ∷ dir) = some dir

abbrev pub file_name : FilePath → Option Text
file_name [] = none
file_name (name ∷ dir) = some name

abbrev pub display : FilePath → Text
display [] = []
display (name ∷ dir) = display dir ++ (text "/" ++ name)

-- The trait `SwapFsOps`, with the error type of `std::io`.
pub record SwapFsOps : Type 1 where
  pub Fs : Type 0
  pub IoError : Type 0
  pub show_error : IoError → Text
  pub rename : FilePath → FilePath → Action Fs IoError (Unit {0})
  pub remove_dir_all : FilePath → Action Fs IoError (Unit {0})

-- Where the old index waits: a backup to keep, or a rollback copy to remove.
unfoldable pub moved_source : FilePath → Text → Bool → Text → FilePath
moved_source dir name true suffix = (name ++ (text "_backup_" ++ suffix)) ∷ dir
moved_source dir name false suffix = (name ++ (text "_rollback_" ++ suffix)) ∷ dir

module _ (ops : SwapFsOps) where
  open ops use {Fs, IoError, show_error, rename, remove_dir_all}

  unfoldable pub format_swap_activation_error :
      FilePath → FilePath → IoError → Option IoError → Text
  format_swap_activation_error rebuilt_dir source_dir swap_err none =
      text "failed to activate rebuilt index "
      ++ (display rebuilt_dir
          ++ (text " -> "
              ++ (display source_dir
                  ++ (text ": " ++ (show_error swap_err ++ text "; rollback succeeded")))))
  format_swap_activation_error rebuilt_dir source_dir swap_err (some rollback_err) =
      text "failed to activate rebuilt index "
      ++ (display rebuilt_dir
          ++ (text " -> "
              ++ (display source_dir
                  ++ (text ": "
                      ++ (show_error swap_err
                          ++ (text "; rollback failed: " ++ show_error rollback_err))))))

  -- `Result::err`
  abbrev pub error_of : Result (Unit {0}) IoError → Option IoError
  error_of (ok done) = none
  error_of (err e) = some e

  -- The rollback copy is removed; a failure to do so is a warning.
  unfoldable pub clean_up : FilePath → Result (Unit {0}) IoError → Text × List Text
  clean_up moved (ok done) = ([], [])
  clean_up moved (err e) = (
    [],
    (text "failed to remove rollback directory " ++ (display moved ++ (text ": " ++ show_error e)))
        ∷ [],
  )

  -- After the second rename: the backup's path, or the error that tells how the rollback went.
  unfoldable pub settle_swap :
      FilePath
      → FilePath
      → FilePath
      → Bool
      → Result (Unit {0}) IoError
      → Action Fs Text (Text × List Text)
  settle_swap source_dir rebuilt_dir moved keep_backup (err swap_err) = do
    rollback ← attempt (rename moved source_dir)
    fail (format_swap_activation_error rebuilt_dir source_dir swap_err (error_of rollback))
  settle_swap source_dir rebuilt_dir moved keep_backup (ok done) =
      when keep_backup (pure (display moved, []))
        (do removed ← attempt (remove_dir_all moved); pure (clean_up moved removed))

  unfoldable pub stage_and_swap :
      FilePath → FilePath → FilePath → Bool → Action Fs Text (Text × List Text)
  stage_and_swap source_dir rebuilt_dir moved keep_backup = do
    staged ←
        map_err
          (λ e.
            text "failed to stage existing index "
            ++ (display source_dir
                ++ (text " -> " ++ (display moved ++ (text ": " ++ show_error e)))))
          (rename source_dir moved)
    activated ← attempt (rename rebuilt_dir source_dir)
    settle_swap source_dir rebuilt_dir moved keep_backup activated

  unfoldable pub swap_rebuilt_index_dir_with_ops :
      FilePath → FilePath → Bool → Text → Action Fs Text (Text × List Text)
  swap_rebuilt_index_dir_with_ops source_dir rebuilt_dir keep_backup suffix = do
    dir ← lift (ok_or (parent source_dir) (text "invalid source index path " ++ display source_dir))
    name ←
        lift
          (ok_or (file_name source_dir) (text "invalid source index path " ++ display source_dir))
    stage_and_swap source_dir rebuilt_dir (moved_source dir name keep_backup suffix) keep_backup
