-- ===== src/Devices/Keyboard/Keys.antt =====
-- What a scan code does, `keyboard_callback` of src/devices/keyboard/keyboard.c.
use frog_kernel.Base.{
  ℕ, ◌/◌, ◌%◌, ◌^◌, ◌<◌, ◌≡◌, ◌≢◌, ◌∙◌, refl, ap, Bool, true, false, not, ◌&&◌, ltb, leb, ◌==◌,
  arith, Bool-cases, inl, inr, if◌then◌else◌, ltb→lt,
}
use frog_kernel.Base.Store.{rows_pass, row-rows_pass}
use frog_kernel.Devices.Keyboard.{
  Keyboard, keyboard_callback, plain_key, extended_key, handle_key, emit, set_mod, char_of, l_shift,
  r_shift, l_ctrl, r_ctrl, l_alt, r_alt,
}

-- The modifier of bit `n` is held down.
abbrev pub held : (mods n : ℕ) → Bool
held mods n = mods / 2 ^ n % 2 == 1

-- Two Booleans are equal.
abbrev same : Bool → Bool → Bool
same true b = b
same false b = not b

abbrev agrees : (mods n j : ℕ) → (released : Bool) → Bool
agrees mods n j released =
    ltb (set_mod mods n released) 64
    && same (held (set_mod mods n released) j) (if j == n then not released else held mods j)

set_mod-table :
    rows_pass 64
      (λ mods. rows_pass 6 (λ n. rows_pass 6 (λ j. agrees mods n j true && agrees mods n j false)))
    ≡ true
unfolding rows_pass set_mod
set_mod-table = refl

same_eq : (a b : Bool) → same a b ≡ true → a ≡ b
same_eq a b h = ground arith

and_left : (a b : Bool) → (a && b) ≡ true → a ≡ true
and_left a b h = ground arith

and_right : (a b : Bool) → (a && b) ≡ true → b ≡ true
and_right a b h = ground arith

agrees-both :
    (mods n j : ℕ) (released : Bool)
    → (agrees mods n j true && agrees mods n j false) ≡ true
    → agrees mods n j released ≡ true
agrees-both mods n j true h = and_left (agrees mods n j true) (agrees mods n j false) h
agrees-both mods n j false h = and_right (agrees mods n j true) (agrees mods n j false) h

set_mod-held :
    (mods n j : ℕ) (released : Bool)
    → mods < 64
    → n < 6
    → j < 6
    → (set_mod mods n released < 64)
      × (held (set_mod mods n released) j ≡ (if j == n then not released else held mods j))
set_mod-held mods n j released hm hn hj =
    let row = row-rows_pass 64 _ mods set_mod-table hm in
    let cell = row-rows_pass 6 _ n row hn in
    let bit = agrees-both mods n j released (row-rows_pass 6 _ j cell hj) in
    (
      ltb→lt (set_mod mods n released) 64 (and_left (ltb (set_mod mods n released) 64) _ bit),
      same_eq _ _ (and_right (ltb (set_mod mods n released) 64) _ bit),
    )

-- The modifier that a code names, with 0xe0 before it or not: a bit, or 6 for none.
unfoldable pub modifier : (extended : Bool) → (code : ℕ) → ℕ
modifier true code = if code == 0x1d then r_ctrl else if code == 0x38 then r_alt else 6
modifier false code =
    if code == 0x2a
    then l_shift
    else if code == 0x36
    then r_shift
    else if code == 0x1d
    then l_ctrl
    else if code == 0x38
    then l_alt
    else 6

put-held :
    (mods n j sc : ℕ)
    → mods < 64
    → n < 6
    → j < 6
    → (set_mod mods n (leb 0x80 sc) < 64)
      × (held (set_mod mods n (leb 0x80 sc)) j ≡ (if j == n then ltb sc 0x80 else held mods j))
put-held mods n j sc hm hn hj =
    let (small, e) = set_mod-held mods n j (leb 0x80 sc) hm hn hj in
    (small, e ∙ ap (λ b. if j == n then b else held mods j) down)
  where
    down : not (leb 0x80 sc) ≡ ltb sc 0x80
    down = ground arith

kept-held :
    (mods j sc : ℕ)
    → mods < 64
    → j < 6
    → (mods < 64) × (held mods j ≡ (if j == 6 then ltb sc 0x80 else held mods j))
kept-held mods j sc hm hj = (hm, rw six refl)
  where
    six : (j == 6) ≡ false
    six = ground arith

emit-mods : (k : Keyboard) (c : ℕ) (released : Bool) → (emit k c released).mods ≡ k.mods
unfolding emit
emit-mods k c released = ground arith

plain_key-mods :
    (k : Keyboard) (sc j : ℕ)
    → k.mods < 64
    → j < 6
    → ((plain_key k (sc % 0x80) (leb 0x80 sc)).mods < 64)
      × (held (plain_key k (sc % 0x80) (leb 0x80 sc)).mods j
          ≡ (if j == modifier false (sc % 0x80) then ltb sc 0x80 else held k.mods j))
unfolding plain_key modifier
plain_key-mods k sc j hm hj = elim (Bool-cases (sc % 0x80 == 0x2a)) [
  | inl l ↦ rw l (put-held k.mods 0 j sc hm (omega arith) hj)
  | inr e0 ↦ rw e0 (elim (Bool-cases (sc % 0x80 == 0x36)) [
    | inl r ↦ rw r (put-held k.mods 1 j sc hm (omega arith) hj)
    | inr e1 ↦ rw e1 (elim (Bool-cases (sc % 0x80 == 0x1d)) [
      | inl ctrl ↦ rw ctrl (put-held k.mods 2 j sc hm (omega arith) hj)
      | inr e2 ↦ rw e2 (elim (Bool-cases (sc % 0x80 == 0x38)) [
        | inl alt ↦ rw alt (put-held k.mods 4 j sc hm (omega arith) hj)
        | inr e3 ↦ rw e3 (elim (Bool-cases (leb 58 (sc % 0x80))) [
          | inl past ↦ rw past (kept-held k.mods j sc hm hj)
          | inr inside ↦
              rw (inside, emit-mods k (char_of k.mods (sc % 0x80)) (leb 0x80 sc))
                (kept-held k.mods j sc hm hj)
        ])
      ])
    ])
  ])
]

handle_key-mods :
    (ext : Bool) (k : Keyboard) (sc j : ℕ)
    → k.mods < 64
    → j < 6
    → ((handle_key ext k (sc % 0x80) (leb 0x80 sc)).mods < 64)
      × (held (handle_key ext k (sc % 0x80) (leb 0x80 sc)).mods j
          ≡ (if j == modifier ext (sc % 0x80) then ltb sc 0x80 else held k.mods j))
unfolding handle_key extended_key modifier
handle_key-mods false k sc j hm hj = plain_key-mods k sc j hm hj
handle_key-mods true k sc j hm hj = elim (Bool-cases (sc % 0x80 == 0x1d)) [
  | inl ctrl ↦ rw ctrl (put-held k.mods 3 j sc hm (omega arith) hj)
  | inr not_ctrl ↦ rw not_ctrl (elim (Bool-cases (sc % 0x80 == 0x38)) [
    | inl alt ↦ rw alt (put-held k.mods 5 j sc hm (omega arith) hj)
    | inr other ↦ rw other (kept-held k.mods j sc hm hj)
  ])
]

-- With at most the six modifiers set, a scan code changes no modifier but the one that it names,
-- which is held down from then on exactly if the code is for a press.
pub keyboard_callback-mods :
    (k : Keyboard) (scancode j : ℕ)
    → k.mods < 64
    → scancode ≢ 0xe0
    → j < 6
    → ((keyboard_callback k scancode).mods < 64)
      × (held (keyboard_callback k scancode).mods j ≡ (
          if j == modifier k.extended (scancode % 0x80) then ltb scancode 0x80 else held k.mods j))
unfolding keyboard_callback
keyboard_callback-mods k sc j hm plain hj = rw not_prefix (handle_key-mods k.extended k sc j hm hj)
  where
    not_prefix : (sc == 0xe0) ≡ false
    not_prefix = ground (arith, plain)
