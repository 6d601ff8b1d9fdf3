-- ===== src/Devices/Chars/Reads.antt =====
-- The writes to the framebuffer through src/devices/fb/fb.c.
use frog_kernel.Base.{
  ℕ, ◌+◌, ◌-◌, ◌*◌, ◌%◌, ◌^◌, ◌<◌, ◌≤◌, ◌≡◌, inl, inr, refl, ◌∙◌, ap, false, ltb, leb,
  if◌then◌else◌, min, Bool-cases, arith,
}
use frog_kernel.Base.Int.{pos}
use frog_kernel.Base.Store.{Array}
use frog_kernel.Misc.Mem.Laws.{within, memcpy_lem, memmove_lem}
use frog_kernel.Devices.Chars.{FbInfo, fb_write}

-- `fb_write` bounds a write by the pitch times the width of the picture. If neither this nor the
-- memory's addresses reach 2^32 and the buffer lies behind the framebuffer, it writes as much as was
-- asked for, but not past that bound, at the offset, and changes no other byte. The picture ends at the
-- pitch times the height: where the width is the greater, the bound lies behind it.
pub fb_write_lem :
    (mem : Array ℕ) (fb : FbInfo) (buf len offset : ℕ)
    → fb.pitch * fb.width < 2 ^ 31
    → fb.virt_addr + fb.pitch * fb.width ≤ buf
    → (let n = min len (fb.pitch * fb.width - offset) in
        ((fb_write mem fb buf len offset).0 ≡ pos n)
        × ((i : ℕ)
            → (fb_write mem fb buf len offset).1 i ≡ (
                if within (fb.virt_addr + offset) n i
                then mem (buf + (i - (fb.virt_addr + offset)))
                else mem i)))
unfolding fb_write
fb_write_lem mem fb buf len offset h k =
    rw size (elim (Bool-cases (leb (fb.pitch * fb.width) offset)) [
      | inl past ↦ rw past (ap pos (ground (arith, past)), λ i. ground (arith, past))
      | inr inside ↦
          rw (inside, least, small)
            (
              refl,
              λ i.
                  memcpy_lem mem (fb.virt_addr + offset) buf
                    (min len (fb.pitch * fb.width - offset)) i (inl (ground (arith, inside, k)))
                  ∙ memmove_lem mem (fb.virt_addr + offset) buf
                      (min len (fb.pitch * fb.width - offset)) i,
            )
    ])
  where
    size : fb.pitch * fb.width % 2 ^ 32 ≡ fb.pitch * fb.width
    size = omega (arith, h)

    least :
        (if ltb len (fb.pitch * fb.width - offset) then len else fb.pitch * fb.width - offset)
        ≡ min len (fb.pitch * fb.width - offset)
    least = ground arith

    small : leb (2 ^ 31) (min len (fb.pitch * fb.width - offset)) ≡ false
    small = ground (arith, h)
