-- ===== src/Rebuild/Run/Paths.antt =====
-- The paths of a rebuild in shim/src/lib.rs: the index, the temporary directory and the place where the
-- old index waits are three.
use chroma_go_local.Base.{◌≡◌, ◌≢◌, ap, Bool, true, false, [], ◌∷◌, ◌++◌, ℕ, arith}
use chroma_go_local.Base.Text.{Text, text}
use chroma_go_local.Rebuild.Swap.{FilePath, moved_source}

-- The names of the three directories differ.
append-cancel : (xs ys zs : Text) → xs ++ ys ≡ xs ++ zs → ys ≡ zs
append-cancel [] ys zs e = e
append-cancel (x ∷ xs) ys zs e = append-cancel xs ys zs (cc e)

append-longer : (xs ys : Text) (c : ℕ) → xs ≢ xs ++ c ∷ ys
append-longer [] ys c e = let bad : ⊥ = cc e in bad
append-longer (x ∷ xs) ys c e = append-longer xs ys c (cc e)

abbrev pub rebuilt_path : Text → FilePath → Text → FilePath
rebuilt_path name dir suffix = (name ++ (text ".rebuild." ++ suffix)) ∷ dir

head_of : FilePath → Text
head_of [] = []
head_of (name ∷ dir) = name

names_differ : {a b : Text} {dir : FilePath} → a ≢ b → a ∷ dir ≢ b ∷ dir
unfolding head_of
names_differ d e = d (ap head_of e)

pub source-rebuilt :
    (name : Text) (dir : FilePath) (suffix : Text) → name ∷ dir ≢ rebuilt_path name dir suffix
unfolding text
source-rebuilt name dir suffix = names_differ (append-longer name _ _)

pub source-moved :
    (name : Text) (dir : FilePath) (keep_backup : Bool) (suffix : Text)
    → name ∷ dir ≢ moved_source dir name keep_backup suffix
unfolding text moved_source
source-moved name dir true suffix = names_differ (append-longer name _ _)
source-moved name dir false suffix = names_differ (append-longer name _ _)

first_code : Text → ℕ
first_code [] = 0
first_code (c ∷ cs) = c

append-apart : (xs ys zs : Text) (a b : ℕ) → a ≢ b → xs ++ a ∷ ys ≢ xs ++ b ∷ zs
unfolding first_code
append-apart xs ys zs a b d e = d (ap first_code (append-cancel xs (a ∷ ys) (b ∷ zs) e))

pub rebuilt-moved :
    (name : Text) (dir : FilePath) (x : Text) (keep_backup : Bool) (y : Text)
    → rebuilt_path name dir x ≢ moved_source dir name keep_backup y
unfolding text moved_source
rebuilt-moved name dir x true y = names_differ (append-apart name _ _ 46 95 (λ e. omega (arith, e)))
rebuilt-moved name dir x false y =
    names_differ (append-apart name _ _ 46 95 (λ e. omega (arith, e)))
