-- ===== src/Devfs/Registry.antt =====
-- The registry of src/devfs/devfs.c: what is registered is found and listed.
use frog_kernel.Base.{
  ℕ, zero, suc, ◌+◌, ◌-◌, ◌<◌, ◌≤◌, ◌≡◌, ◌≢◌, inl, inr, refl, ◌∙◌, ap, Bool, true, false, length,
  ltb, take, [], ◌∷◌, ◌&&◌, Bool-cases, none, some, leb, ◌==◌, if◌then◌else◌, arith,
}
use frog_kernel.Base.Int.{pos, is_zero}
use frog_kernel.Base.Store.{Array, update}
use frog_kernel.Misc.Util.{Text, strcmp}
use frog_kernel.Misc.Util.Text.{IsText}
use frog_kernel.Misc.Util.Compare.{strcmp-zero_iff}
use frog_kernel.Devfs.{
  Entry, Devfs, devfs_max_devices, devfs_register, find_entry, nth_entry, devfs_root_finddir,
  devfs_vnode_from_entry,
}

-- The entries up to the count are active, and there are at most as many as the table holds.
pub record IsRegistry (d : Devfs) : Type 0 where
  pub fits : d.registry_count ≤ devfs_max_devices
  pub active : (i : ℕ) → i < d.registry_count → (d.registry i).active ≡ true

-- An entry answers to a name.
abbrev pub answers : Entry → Text → Bool
answers e name = e.active && is_zero (strcmp e.name name)

find_entry-some :
    (registry : Array Entry) (name : Text) (n i k : ℕ)
    → ((j : ℕ) → i ≤ j → j < k → answers (registry j) name ≡ false)
    → i ≤ k
    → k < i + n
    → answers (registry k) name ≡ true
    → find_entry registry name n i ≡ some k
unfolding find_entry
find_entry-some registry name zero i k free le lt hit = absurd (omega arith)
find_entry-some registry name (suc n) i k free le lt hit = elim (Bool-cases (i == k)) [
  | inl here ↦ rw (at_k here, hit) (ap some (ground arith))
  | inr later ↦ rw (free i (omega arith) (ground arith)) (
      find_entry-some registry name n (i + 1) k (λ j h l. free j (omega arith) l) (ground arith)
        (omega arith) hit)
]
  where
    at_k : (i == k) ≡ true → registry i ≡ registry k
    at_k h = ap registry (ground arith)

take_all : (n : ℕ) (s : Text) → length s ≤ n → take n s ≡ s
take_all n [] h = take_nil n
  where
    take_nil : (n : ℕ) → take {A = ℕ} n [] ≡ []
    take_nil zero = refl
    take_nil (suc n) = refl
take_all zero (c ∷ s) h = absurd (omega arith)
take_all (suc n) (c ∷ s) h = ap (λ t. c ∷ t) (take_all n s (omega arith))

finddir_found :
    (d : Devfs) (node : ℕ) (name : Text) (i : ℕ)
    → find_entry d.registry name d.registry_count 0 ≡ some i
    → node ≢ 0
    → devfs_root_finddir d node name ≡ (
      node,
      record d {
        vnodes = update d.vnodes node (record {
          flags = (d.registry i).flags;
          ops = (d.registry i).ops;
          private_data = (d.registry i).private_data;
        });
      },
    )
unfolding devfs_root_finddir devfs_vnode_from_entry
finddir_found d node name i e nz = rw (devfs_root_finddir, e, node_there) refl
  where
    node_there : (node == 0) ≡ false
    node_there = ground (arith, nz)

-- A device whose name has at most 63 characters, none of them NUL, and is not that of a device that
-- is there, is found by its name once it is registered, if the registry has room and the heap gives
-- a vnode: the vnode has the operations, the flags and the data that were registered.
pub devfs_root_finddir-devfs_register :
    (d : Devfs) (name : Text) (ops private_data flags node : ℕ)
    → d.registry_count < devfs_max_devices
    → IsText name
    → length name ≤ 63
    → ((i : ℕ) → i < d.registry_count → answers (d.registry i) name ≡ false)
    → node ≢ 0
    → (let (r, d') = devfs_register d name ops private_data flags in
        let (found, d'') = devfs_root_finddir d' node name in
        (r ≡ pos 0)
        × (found ≡ node)
        × (d''.vnodes node ≡ record { flags = flags; ops = ops; private_data = private_data }))
unfolding devfs_register
devfs_root_finddir-devfs_register d name ops private_data flags node room text short fresh nz =
    rw
      (
        has_room,
        finddir_found
            (record d {
              registry = update d.registry d.registry_count made;
              registry_count = d.registry_count + 1;
            })
            node name d.registry_count found nz,
        last,
      )
      (refl, refl, ground arith)
  where
    made : Entry
    made = record {
      name = take 63 name;
      ops = ops;
      private_data = private_data;
      flags = flags;
      active = true;
    }

    has_room : leb devfs_max_devices d.registry_count ≡ false
    has_room = ground (arith, room)

    last : update d.registry d.registry_count made d.registry_count ≡ made
    last = ground arith

    matches : answers made name ≡ true
    matches = rw (take_all 63 name short, (strcmp-zero_iff name name text text).1 refl) refl

    found :
        find_entry (update d.registry d.registry_count made) name (d.registry_count + 1) 0
        ≡ some d.registry_count
    found =
        find_entry-some (update d.registry d.registry_count made) name (d.registry_count + 1) 0
          d.registry_count (λ j h l. ap (λ e. answers e name) (earlier j l) ∙ fresh j l)
          (omega arith) (omega arith) (ap (λ e. answers e name) last ∙ matches)
      where
        earlier :
            (j : ℕ)
            → j < d.registry_count
            → update d.registry d.registry_count made j ≡ d.registry j
        earlier j l = ground (arith, l)

-- In a registry whose entries are active, `devfs_root_readdir` lists them in the order in which they
-- were registered: the one with the index, or -1 and no change behind the last.
pub nth_entry_lem :
    (registry : Array Entry) (index n i found : ℕ)
    → ((j : ℕ) → i ≤ j → j < i + n → (registry j).active ≡ true)
    → found ≤ index
    → nth_entry registry index n i found
      ≡ (if ltb (index - found) n then some (i + (index - found)) else none)
unfolding nth_entry
nth_entry_lem registry index zero i found all le = ground arith
nth_entry_lem registry index (suc n) i found all le = ground (
  arith,
  all i,
  nth_entry_lem registry index n (i + 1) (found + 1) (λ j h l. all j (omega arith) (omega arith)),
)
