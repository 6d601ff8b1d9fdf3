-- ===== src/Devices/Keyboard/Typing.antt =====
-- What a key puts into the buffer and the terminal, `keyboard_callback` of
-- src/devices/keyboard/keyboard.c.
use frog_kernel.Base.{
  ℕ, ◌%◌, ◌<◌, ◌≡◌, refl, sym, ap, Bool, true, false, not, ◌||◌, [], ◌∷◌, ◌++◌, ltb, leb, length,
  ◌==◌, arith, Bool-cases, inl, inr, if◌then◌else◌, bit_or, get_or,
}
use frog_kernel.Base.Store.{rows_pass, row-rows_pass}
use frog_kernel.Devices.Tty.{tty_input_push}
use frog_kernel.Devices.Keyboard.{
  Keyboard, keyboard_callback, plain_key, extended_key, handle_key, emit, put_mod, char_of, shifted,
  scancode_map, scancode_map_shift, l_shift, r_shift,
}
use frog_kernel.Devices.Keyboard.Keys.{held, modifier}
use frog_kernel.Devices.Keyboard.Buffer
use frog_kernel.Devices.Tty.Edit

-- The character that a code types, or 0: a code without a prefix that names no modifier and is
-- within the map.
unfoldable pub typed : Keyboard → (scancode : ℕ) → ℕ
typed k scancode =
    let code = scancode % 0x80 in
    if scancode == 0xe0 || k.extended || ltb (modifier false code) 6 || leb 58 code
    then 0
    else get_or
        (if held k.mods l_shift || held k.mods r_shift then scancode_map_shift else scancode_map)
        code 0

-- The modifiers are six, the buffer is valid, and so is the terminal.
pub record IsValid (k : Keyboard) : Type 0 where
  pub mods : k.mods < 64
  pub buffer : Buffer.IsValid k.keyboard_buf
  pub tty : Edit.IsValid k.term.tty

-- What a character, or 0, does on its key's press or release.
unfoldable pub Types : (k k' : Keyboard) (c : ℕ) (released : Bool) → Type 0
Types k k' c released =
    (Buffer.IsValid k'.keyboard_buf × Edit.IsValid k'.term.tty)
    × (Buffer.contents k'.keyboard_buf ≡ (
        if c == 0 || leb 63 (length (Buffer.contents k.keyboard_buf))
        then Buffer.contents k.keyboard_buf
        else Buffer.contents k.keyboard_buf ++ (if released then bit_or c 0x80 else c) ∷ []))
    × (Edit.contents k'.term.tty ≡ (
        if c == 0 || released
        then Edit.contents k.term.tty
        else Edit.edit (Edit.contents k.term.tty) c))

emit-Types :
    (k : Keyboard) (c : ℕ) (released : Bool) → IsValid k → Types k (emit k c released) c released
unfolding emit Types
emit-Types k c released v = elim (Bool-cases (c == 0)) [
  | inl null ↦ rw null ((v.buffer, v.tty), refl, refl)
  | inr char ↦ rw char (
      let (b, bs) = Buffer.buf_push_lem k.keyboard_buf c released v.buffer in
      let (t, ts) = echo released in ((b, t), bs, ts))
]
  where
    echo :
        (r : Bool)
        → Edit.IsValid (if r then k.term else tty_input_push k.term c).tty
          × (Edit.contents (if r then k.term else tty_input_push k.term c).tty
              ≡ (if r then Edit.contents k.term.tty else Edit.edit (Edit.contents k.term.tty) c))
    echo true = (v.tty, refl)
    echo false = Edit.tty_input_push_lem k.term c v.tty

quiet :
    (k k' : Keyboard) (released : Bool)
    → IsValid k
    → k'.keyboard_buf ≡ k.keyboard_buf
    → k'.term ≡ k.term
    → Types k k' 0 released
unfolding Types
quiet k k' released v b t = rw (b, t) ((v.buffer, v.tty), refl, refl)

shift-table : rows_pass 64 (λ m. if held m 0 || held m 1 then shifted m else not (shifted m)) ≡ true
unfolding rows_pass
shift-table = refl

char_of-typed :
    (mods code : ℕ)
    → mods < 64
    → char_of mods code
      ≡ get_or
          (if held mods l_shift || held mods r_shift then scancode_map_shift else scancode_map)
          code
          0
unfolding char_of
char_of-typed mods code h =
    ap (λ b. get_or (if b then scancode_map_shift else scancode_map) code 0) same
  where
    row : (if held mods 0 || held mods 1 then shifted mods else not (shifted mods)) ≡ true
    row =
        row-rows_pass 64 (λ m. if held m 0 || held m 1 then shifted m else not (shifted m)) mods
          shift-table h

    same : shifted mods ≡ (held mods 0 || held mods 1)
    same = ground (arith, row)

-- `typed`, by the flag.
abbrev types : (extended : Bool) → (mods code : ℕ) → ℕ
types extended mods code =
    if extended || ltb (modifier false code) 6 || leb 58 code
    then 0
    else get_or
        (if held mods l_shift || held mods r_shift then scancode_map_shift else scancode_map) code 0

plain_key-Types :
    (k : Keyboard) (code : ℕ) (released : Bool)
    → IsValid k
    → Types k (plain_key k code released) (types false k.mods code) released
unfolding plain_key modifier
plain_key-Types k code released v = elim (Bool-cases (code == 0x2a)) [
  | inl l ↦ rw l (quiet k (put_mod k 0 released) released v refl refl)
  | inr e0 ↦ rw e0 (elim (Bool-cases (code == 0x36)) [
    | inl r ↦ rw r (quiet k (put_mod k 1 released) released v refl refl)
    | inr e1 ↦ rw e1 (elim (Bool-cases (code == 0x1d)) [
      | inl ctrl ↦ rw ctrl (quiet k (put_mod k 2 released) released v refl refl)
      | inr e2 ↦ rw e2 (elim (Bool-cases (code == 0x38)) [
        | inl alt ↦ rw alt (quiet k (put_mod k 4 released) released v refl refl)
        | inr e3 ↦ rw e3 (elim (Bool-cases (leb 58 code)) [
          | inl past ↦ rw past (quiet k k released v refl refl)
          | inr inside ↦
              rw (inside, sym (char_of-typed k.mods code v.mods))
                (emit-Types k (char_of k.mods code) released v)
        ])
      ])
    ])
  ])
]

handle_key-Types :
    (ext : Bool) (k : Keyboard) (code : ℕ) (released : Bool)
    → IsValid k
    → Types k (handle_key ext k code released) (types ext k.mods code) released
unfolding handle_key extended_key
handle_key-Types false k code released v = plain_key-Types k code released v
handle_key-Types true k code released v = elim (Bool-cases (code == 0x1d)) [
  | inl ctrl ↦
      rw ctrl (quiet k (put_mod (record k { extended = false }) 3 released) released v refl refl)
  | inr not_ctrl ↦ rw not_ctrl (elim (Bool-cases (code == 0x38)) [
    | inl alt ↦
        rw alt (quiet k (put_mod (record k { extended = false }) 5 released) released v refl refl)
    | inr other ↦ rw other (quiet k (record k { extended = false }) released v refl refl)
  ])
]

-- On a valid keyboard, a code that types no character leaves the buffer and the terminal's queue.
-- Another one appends its character to the buffer, marked if the key is released, or drops it if 63
-- bytes wait there; the press of a key, and not its release, edits the terminal's queue. The buffer
-- and the terminal stay valid.
pub keyboard_callback-Types :
    (k : Keyboard) (scancode : ℕ)
    → IsValid k
    → Types k (keyboard_callback k scancode) (typed k scancode) (leb 0x80 scancode)
unfolding keyboard_callback typed
keyboard_callback-Types k sc v = elim (Bool-cases (sc == 0xe0)) [
  | inl prefix ↦ rw prefix (quiet k (record k { extended = true }) (leb 0x80 sc) v refl refl)
  | inr key ↦ rw key (handle_key-Types k.extended k (sc % 0x80) (leb 0x80 sc) v)
]
