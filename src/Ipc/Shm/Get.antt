-- ===== src/Ipc/Shm/Get.antt =====
-- kernel/ipc/shm.c: the segment that a key leads to.
use mathlib.Core.Option.{none-ne-some, some-injective}
use rucix_kernel.Common.{
  ℕ, ◌+◌, ◌<◌, ◌≡◌, ◌≢◌, ◌⊎◌, refl, sym, ◌∙◌, ap, subst, Option, none, some, List, [], ◌∷◌, ◌==◌,
  ==_refl, if◌then◌else◌, Bool-cases, Option-cases, inl, inr, arith,
}
use rucix_kernel.Common.Int.{pos}
use rucix_kernel.Ipc.Shm.{Segment, Shm, find_shm, find_shm_key, create, give_back, sys_shmget}
use rucix_kernel.Strings.{Mem}
use rucix_kernel.Strings.Blocks.{within, memset-filled}
use rucix_kernel.Ipc.Shm.Segments.{
  Apart, AllApart, Below, IsValid, Unused, find_shm-head, find_shm-tail,
}

find_shm_key-id :
    (x s : Segment) (l : List Segment) (key : ℕ)
    → Apart x l
    → find_shm_key key l ≡ some s
    → s.id < x.id
unfolding find_shm_key
find_shm_key-id x s [] key h e = absurd (none-ne-some s e)
find_shm_key-id x s (y ∷ l) key (lt, k, a, h) e = elim (Bool-cases (y.key == key)) [
  | inl f ↦
      let head : find_shm_key key (y ∷ l) ≡ some y = rw f refl in
      subst (λ (z : Segment). z.id < x.id) (some-injective y s (sym head ∙ e)) lt
  | inr f ↦
      let tail : find_shm_key key (y ∷ l) ≡ find_shm_key key l = rw f refl in
      find_shm_key-id x s l key h (sym tail ∙ e)
]

find_shm-key :
    (l : List Segment) (key : ℕ) (s : Segment)
    → AllApart l
    → find_shm_key key l ≡ some s
    → (find_shm s.id l ≡ some s) × (s.key ≡ key)
unfolding find_shm_key
find_shm-key [] key s h e = absurd (none-ne-some s e)
find_shm-key (x ∷ l) key s (apart, h) e = elim (Bool-cases (x.key == key)) [
  | inl f ↦
      let head : find_shm_key key (x ∷ l) ≡ some x = rw f refl in
      let same = some-injective x s (sym head ∙ e) in
      subst (λ (z : Segment). (find_shm z.id (x ∷ l) ≡ some z) × (z.key ≡ key)) same
        (find_shm-head x.id x l (==_refl x.id), ground arith)
  | inr f ↦
      let tail : find_shm_key key (x ∷ l) ≡ find_shm_key key l = rw f refl in
      let later = sym tail ∙ e in
      let less = find_shm_key-id x s l key apart later in
      let (found, k) = find_shm-key l key s h later in
      (find_shm-tail s.id x l (ground arith) ∙ found, k)
]

new-Apart :
    (s : Segment) (l : List Segment)
    → Below s.id l
    → Unused s.phys_addr l
    → find_shm_key s.key l ≡ none
    → Apart s l
unfolding find_shm_key
new-Apart s [] b u e = tt
new-Apart s (x ∷ l) (lt, b) (n, u) e = elim (Bool-cases (x.key == s.key)) [
  | inl f ↦
      let head : find_shm_key s.key (x ∷ l) ≡ some x = rw f refl in
      absurd (none-ne-some x (sym e ∙ head))
  | inr f ↦
      let tail : find_shm_key s.key (x ∷ l) ≡ find_shm_key s.key l = rw f refl in
      (lt, (λ k. ground arith), n, new-Apart s l b u (sym tail ∙ e))
]

Below-more : (n : ℕ) (l : List Segment) → Below n l → Below (n + 1) l
Below-more n [] h = tt
Below-more n (s ∷ l) (lt, h) = (omega arith, Below-more n l h)

-- What `sys_shmget` of a key leads to: the segment that has the key, a new one, or a failure.
unfoldable pub Got : ℕ → ℕ → ℕ → ℕ → Shm → Option ℕ × Shm → Type 0
Got key size record_addr addr m (none, m') =
    (find_shm_key key m.segments ≡ none)
    × (((record_addr ≡ 0) × (m' ≡ m))
        ⊎ ((record_addr ≢ 0) × (addr ≡ 0) × (m' ≡ give_back record_addr m)))
Got key size record_addr addr m (some id, m') =
    ((m' ≡ m) × ((s : Segment) × (find_shm id m.segments ≡ some s) × (s.key ≡ key)))
    ⊎ ((find_shm_key key m.segments ≡ none)
        × (find_shm id m'.segments
            ≡ some
                (record { id = id; key = key; size = size; phys_addr = addr; ref_count = pos 0 }))
        × ((other : ℕ) → other ≢ id → find_shm other m'.segments ≡ find_shm other m.segments)
        × ((x : ℕ) → m'.memory x ≡ (if within addr size x then 0 else m.memory x))
        × (m'.freed ≡ m.freed))

shmget-old :
    (key size record_addr addr : ℕ) (m : Shm) (s : Segment)
    → find_shm_key key m.segments ≡ some s
    → sys_shmget key size record_addr addr m ≡ (some s.id, m)
unfolding sys_shmget
shmget-old key size record_addr addr m s e = rw (sys_shmget, e) refl

shmget-new :
    (key size record_addr addr : ℕ) (m : Shm)
    → find_shm_key key m.segments ≡ none
    → sys_shmget key size record_addr addr m ≡ (
        if record_addr == 0
        then (none, m)
        else if addr == 0
        then (none, give_back record_addr m)
        else create key size addr m)
unfolding sys_shmget
shmget-new key size record_addr addr m e = rw (sys_shmget, e) refl

create-Got :
    (key size record_addr addr : ℕ) (m : Shm)
    → IsValid m
    → Unused addr m.segments
    → find_shm_key key m.segments ≡ none
    → IsValid (create key size addr m).1 × Got key size record_addr addr m (create key size addr m)
unfolding IsValid Got create
create-Got key size record_addr addr m (apart, below) unused e =
    let s : Segment = record {
      id = m.next_shm_id;
      key = key;
      size = size;
      phys_addr = addr;
      ref_count = pos 0;
    } in
    (
      (
        (new-Apart s m.segments below unused e, apart),
        (omega arith, Below-more m.next_shm_id m.segments below),
      ),
      inr (
        e,
        find_shm-head s.id s m.segments (==_refl s.id),
        λ other n. find_shm-tail other s m.segments (ground arith),
        λ x. ap (λ (b : Mem). b x) (memset-filled m.memory addr 0 size),
        refl,
      ),
    )

-- `sys_shmget` returns the identifier of the segment with the key, and then changes nothing; or, when no
-- segment has the key, it creates one of the size, attached by nobody, under an identifier that `find_shm`
-- then finds: all other identifiers name what they named, the bytes of the segment are 0, no other byte
-- changes, and nothing is freed. It fails only when no segment has the key and one of the two allocations
-- fails; then nothing changes but that the record is freed if it was allocated. Identifiers, keys and
-- addresses stay different. `kmalloc` returns the address of no segment.
pub shmget-Got :
    (key size record_addr addr : ℕ) (m : Shm)
    → IsValid m
    → Unused addr m.segments
    → IsValid (sys_shmget key size record_addr addr m).1
      × Got key size record_addr addr m (sys_shmget key size record_addr addr m)
unfolding Got IsValid
shmget-Got key size record_addr addr m v unused =
    elim (Option-cases (find_shm_key key m.segments)) [
      | inr (s, e) ↦ rw (shmget-old key size record_addr addr m s e) (
        v,
        inl (
          refl,
          (s, (find_shm-key m.segments key s v.0 e).0, (find_shm-key m.segments key s v.0 e).1),
        ),
      )
      | inl e ↦ elim (Bool-cases (record_addr == 0)) [
        | inl z ↦
            rw (shmget-new key size record_addr addr m e, z) (v, (e, inl (ground arith, refl)))
        | inr y ↦ elim (Bool-cases (addr == 0)) [
          | inl z ↦
              rw (shmget-new key size record_addr addr m e, y, z)
                (v, (e, inr ((λ w. ground arith), ground arith, refl)))
          | inr z ↦
              rw (shmget-new key size record_addr addr m e, y, z)
                (create-Got key size record_addr addr m v unused e)
        ]
      ]
    ]
