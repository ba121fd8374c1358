-- ===== src/Ffi/LastError.antt =====
-- `LAST_ERROR` of shim/src/lib.rs and the functions that write and read it. The slot is a mutex
-- whose poisoning both sides ignore, so it is a plain value here.
use chroma_go_local.Base.{
  ◌≡◌, refl, Bool, false, ◌||◌, Option, none, some, [], ◌∷◌, arith, ◌==◌, if◌then◌else◌,
}
use chroma_go_local.Base.Text.{Text}

-- `replace('\0', "\\0")`
unfoldable pub sanitize : Text → Text
sanitize [] = []
sanitize (c ∷ s) = if c == 0 then 92 ∷ 48 ∷ sanitize s else c ∷ sanitize s

unfoldable pub set_last_error : Text → Option Text → Option Text
set_last_error msg slot = some (sanitize msg)

unfoldable pub has_null : Text → Bool
has_null [] = false
has_null (c ∷ s) = c == 0 || has_null s

-- `CString::new(..).ok()`: text with a null byte in it is no C string.
unfoldable pub c_string : Text → Option Text
c_string s = if has_null s then none else some s

-- What the caller gets, and the slot after it: a read empties the slot.
abbrev pub Taken : Type 0
Taken = Option Text × Option Text

unfoldable pub last_error_cstring : Option Text → Taken
last_error_cstring none = (none, none)
last_error_cstring (some msg) = (c_string msg, none)

unfoldable pub last_error_message : Option Text → Taken
last_error_message slot = (slot, none)

has_null-sanitize : (s : Text) → has_null (sanitize s) ≡ false
unfolding has_null sanitize
has_null-sanitize [] = refl
has_null-sanitize (c ∷ s) = ground (arith, has_null-sanitize s)

sanitize_id : (s : Text) → has_null s ≡ false → sanitize s ≡ s
unfolding has_null sanitize
sanitize_id [] h = refl
sanitize_id (c ∷ s) h = ground (arith, sanitize_id s)

-- An error that was set is never lost to a null byte: the next read gives a C string, the message
-- itself if it has no null byte, and the read after that gives none.
pub read_after_set :
    (msg : Text) (slot : Option Text)
    → (last_error_cstring (set_last_error msg slot) ≡ (some (sanitize msg), none))
      × (has_null msg ≡ false → last_error_cstring (set_last_error msg slot) ≡ (some msg, none))
      × (last_error_cstring (last_error_cstring (set_last_error msg slot)).1 ≡ (none, none))
unfolding last_error_cstring set_last_error c_string
read_after_set msg slot =
    (rw (has_null-sanitize msg), λ h. rw (has_null-sanitize msg, sanitize_id msg h), refl)
