-- ===== src/Initrd/Found.antt =====
-- The lookup of src/initrd/initrd.c in an archive that is given by its members.
use mathlib.Core.Path.{subst}
use frog_kernel.Base.{
  ℕ, ◌+◌, ◌*◌, ◌<◌, ◌≤◌, ◌≡◌, ◌≢◌, ◌⊎◌, inl, inr, refl, sym, ◌∙◌, ap, true, false, Option, none,
  some, List, [], ◌∷◌, ◌++◌, length, ◌==◌, if◌then◌else◌, arith,
}
use frog_kernel.Base.Store.{Array}
use frog_kernel.Misc.Util.{Text}
use frog_kernel.Initrd.{
  Initrd, File, no_file, oct2int, bytes_at, strip, raw_path, full_path, file_size,
}
use frog_kernel.Initrd.Archive.{
  Field, joined, Member, IsMember, Archive, ends_plain, bytes_at_lem, Field-longer,
  oct2int_from_lem, strip-plain, strip-slash,
}

module _ (mem : Array ℕ) (end : ℕ) where
  raw_path_parts :
      (at : ℕ)
      → raw_path mem at ≡ (
          if mem (at + 345) == 0
          then bytes_at mem at 255
          else bytes_at mem (at + 345) 155 ++ b'/' ∷ bytes_at mem at 100)
  unfolding raw_path
  raw_path_parts at = refl

  raw_path-joined :
      (at : ℕ) (prefix name : Text)
      → Field mem at 100 name
      → (length prefix ≡ 0 → length name < 100)
      → Field mem (at + 345) 155 prefix
      → raw_path mem at ≡ joined prefix name
  raw_path-joined at [] name n short (inl e) = absurd (omega arith)
  raw_path-joined at [] name n short (inr e) =
      raw_path_parts at
      ∙ rw (none_there) (
          bytes_at_lem mem at 255 name
            (Field-longer mem at 100 255 name n (short refl) (omega arith)))
    where
      none_there : (mem (at + 345) == 0) ≡ true
      none_there = ground (arith, e)
  raw_path-joined at (c ∷ p) name n short (e, nz, f) =
      raw_path_parts at
      ∙ rw
          (
            there,
            bytes_at_lem mem (at + 345) 155 (c ∷ p) (e, nz, f),
            bytes_at_lem mem at 100 name n,
          )
          refl
    where
      there : (mem (at + 345) == 0) ≡ false
      there = ground (arith, e, nz)

  module _ (m : Member) (v : IsMember mem end m) where
    raw : raw_path mem m.at ≡ joined m.prefix m.name
    raw = raw_path-joined m.at m.prefix m.name v.name v.short_name v.prefix

    pub full_path-path : full_path mem m.at ≡ m.path
    unfolding full_path
    full_path-path = ap strip raw ∙ by_end v.path
      where
        by_end :
            ((joined m.prefix m.name ≡ m.path) × ((ends_plain m.path ≡ true) ⊎ (length m.path ≡ 1)))
              ⊎ ((joined m.prefix m.name ≡ m.path ++ b'/' ∷ []) × (1 ≤ length m.path))
            → strip (joined m.prefix m.name) ≡ m.path
        by_end (inl (e, p)) = ap strip e ∙ strip-plain m.path p
        by_end (inr (e, l)) = ap strip e ∙ strip-slash m.path l

    pub file_size-size : file_size mem m.at ≡ m.size
    unfolding file_size oct2int
    file_size-size =
        oct2int_from_lem mem (m.at + 124) 12 0 m.digits v.digits (omega (arith, v.size, v.next))
        ∙ v.size

-- The first member of an archive with a path, if there is one.
abbrev pub Finds : Text → List Member → Option Member → Type 0
Finds path [] none = Unit
Finds path [] (some m) = ⊥
Finds path (m ∷ ms) o = ((m.path ≡ path) × (o ≡ some m)) ⊎ ((m.path ≢ path) × Finds path ms o)

abbrev pub place_of : Option Member → ℕ
place_of none = 0
place_of (some m) = m.at

-- The file of a member: where its name and its contents lie, its size and its type.
abbrev pub file_of : Array ℕ → Option Member → File
file_of mem none = no_file
file_of mem (some m) = record {
  name = m.at;
  data_at = m.at + 512;
  size = m.size;
  typeflag = mem (m.at + 156);
}

abbrev member_or : Member → Option Member → Member
member_or m none = m
member_or m (some n) = n

pub Finds-IsMember :
    (mem : Array ℕ) (end ptr : ℕ) (path : Text) (ms : List Member) (m : Member)
    → Archive mem end ptr ms
    → Finds path ms (some m)
    → IsMember mem end m
Finds-IsMember mem end ptr path [] m a f = absurd f
Finds-IsMember mem end ptr path (n ∷ ms) m (e, v, a) (inl (p, o)) =
    subst (IsMember mem end) (sym (ap (member_or n) o)) v
Finds-IsMember mem end ptr path (n ∷ ms) m (e, v, a) (inr (p, f)) =
    Finds-IsMember mem end (n.at + 512 + n.blocks * 512) path ms m a f
