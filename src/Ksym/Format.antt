-- ===== src/Ksym/Format.antt =====
-- `ksym_format` of src/ksym/ksym.c: a symbol as text.
use frog_kernel.Base.{ℕ, Option, none, some, List, [], ◌∷◌, if◌then◌else◌, ltb, ◌++◌}
use frog_kernel.Base.Store.{Array}
use frog_kernel.Misc.Util.{Text}
use frog_kernel.Misc.Printf.{vsnprintf, word, string}
use frog_kernel.Ksym.{Symbol, Found, ksym_lookup}

-- "%s+0x%x"
abbrev pub name_and_offset : Text
name_and_offset = b'%' ∷ b's' ∷ b'+' ∷ b'0' ∷ b'x' ∷ b'%' ∷ b'x' ∷ []

-- "/0x%x"
abbrev pub size_part : Text
size_part = b'/' ∷ b'0' ∷ b'x' ∷ b'%' ∷ b'x' ∷ []

-- What the lookup gives; where it fails, "??" with 0 for the offset and the size.
abbrev pub or_unknown : Option Found → Found
or_unknown none = record { name = b'?' ∷ b'?' ∷ []; offset = 0; size = 0 }
or_unknown (some f) = f

abbrev pub format_found : Found → (buf : Array ℕ) → (buflen : ℕ) → Option (ℕ × Array ℕ)
format_found f buf buflen =
    if ltb 0 f.size
    then vsnprintf buf buflen (name_and_offset ++ size_part)
        (string (some f.name) ∷ word f.offset ∷ word f.size ∷ [])
    else vsnprintf buf buflen name_and_offset (string (some f.name) ∷ word f.offset ∷ [])

-- The length and the buffer.
unfoldable pub ksym_format :
    List Symbol → (eip : ℕ) → (buf : Array ℕ) → (buflen : ℕ) → Option (ℕ × Array ℕ)
ksym_format table eip buf buflen = format_found (or_unknown (ksym_lookup table eip)) buf buflen
