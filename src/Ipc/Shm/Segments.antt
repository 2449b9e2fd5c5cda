-- ===== src/Ipc/Shm/Segments.antt =====
-- kernel/ipc/shm.c: identifiers, keys and reference counts of the segments.
use mathlib.Core.Option.{none-ne-some, some-injective}
use rucix_kernel.Common.{
  ℕ, zero, suc, ◌<◌, ◌≡◌, ◌≢◌, ◌⊎◌, refl, sym, ◌∙◌, ap, subst, true, false, none, some, List, [],
  ◌∷◌, ◌==◌, ==_refl, Bool-cases, Option-cases, inl, inr, arith,
}
use rucix_kernel.Common.Int.{ℤ, pos, negsuc, suc_ℤ, pred_ℤ}
use rucix_kernel.Ipc.Shm.{
  Segment, Shm, find_shm, with_count, with_segments, attach, sys_shmat, detach, sys_shmdt,
}

-- No other segment has the identifier, the key or the address.
abbrev pub Apart : Segment → List Segment → Type 0
Apart s [] = Unit {0}
Apart s (t ∷ l) = (t.id < s.id) × (t.key ≢ s.key) × (t.phys_addr ≢ s.phys_addr) × Apart s l

abbrev pub AllApart : List Segment → Type 0
AllApart [] = Unit {0}
AllApart (s ∷ l) = Apart s l × AllApart l

abbrev pub Below : ℕ → List Segment → Type 0
Below n [] = Unit {0}
Below n (s ∷ l) = (s.id < n) × Below n l

unfoldable pub IsValid : Shm → Type 0
IsValid m = AllApart m.segments × Below m.next_shm_id m.segments

-- `kmalloc` returns the address of no segment.
abbrev pub Unused : ℕ → List Segment → Type 0
Unused addr [] = Unit {0}
Unused addr (s ∷ l) = (s.phys_addr ≢ addr) × Unused addr l

pub pred_ℤ-suc_ℤ : (z : ℤ) → pred_ℤ (suc_ℤ z) ≡ z
pred_ℤ-suc_ℤ (pos n) = refl
pred_ℤ-suc_ℤ (negsuc zero) = refl
pred_ℤ-suc_ℤ (negsuc (suc n)) = refl

pub find_shm-head :
    (id : ℕ) (s : Segment) (l : List Segment) → (s.id == id) ≡ true → find_shm id (s ∷ l) ≡ some s
unfolding find_shm
find_shm-head id s l e = rw e refl

pub find_shm-tail :
    (id : ℕ) (s : Segment) (l : List Segment)
    → (s.id == id) ≡ false
    → find_shm id (s ∷ l) ≡ find_shm id l
unfolding find_shm
find_shm-tail id s l e = rw e refl

find_shm-Apart :
    (s t : Segment) (l : List Segment) (id : ℕ)
    → Apart s l
    → find_shm id l ≡ some t
    → t.phys_addr ≢ s.phys_addr
unfolding find_shm
find_shm-Apart s t [] id h e = absurd (none-ne-some t e)
find_shm-Apart s t (x ∷ l) id (lt, k, a, h) e = elim (Bool-cases (x.id == id)) [
  | inl f ↦
      let same = some-injective x t (sym (find_shm-head id x l f) ∙ e) in
      subst (λ (y : Segment). y.phys_addr ≢ s.phys_addr) same a
  | inr f ↦ find_shm-Apart s t l id h (sym (find_shm-tail id x l f) ∙ e)
]

-- The address that an attachment returned finds the segment again.
detach-attach :
    (l : List Segment) (id : ℕ) (s : Segment)
    → AllApart l
    → find_shm id l ≡ some s
    → detach s.phys_addr (attach id l) ≡ some l
unfolding attach detach find_shm
detach-attach [] id s h e = absurd (none-ne-some s e)
detach-attach (x ∷ l) id s (apart, h) e = elim (Bool-cases (x.id == id)) [
  | inl f ↦
      let same = some-injective x s (sym (find_shm-head id x l f) ∙ e) in
      let a = ap (λ (y : Segment). y.phys_addr) (sym same) in
      rw (f, a, ==_refl x.phys_addr)
        (ap (λ z. some (with_count z x ∷ l)) (pred_ℤ-suc_ℤ x.ref_count))
  | inr f ↦
      let later = sym (find_shm-tail id x l f) ∙ e in
      let other = find_shm-Apart x s l id apart later in
      let differs : (x.phys_addr == s.phys_addr) ≡ false = ground (arith, other) in
      rw (f, differs, detach-attach l id s h later) refl
]

shmat-run :
    (m : Shm) (id : ℕ) (s : Segment)
    → find_shm id m.segments ≡ some s
    → sys_shmat id m ≡ (some s.phys_addr, with_segments (attach id m.segments) m)
unfolding sys_shmat
shmat-run m id s e = rw (sys_shmat, e) refl

shmdt-run :
    (m : Shm) (addr : ℕ) (l : List Segment)
    → detach addr m.segments ≡ some l
    → sys_shmdt addr m ≡ some (with_segments l m)
unfolding sys_shmdt
shmdt-run m addr l e = rw (sys_shmdt, e) refl

-- `sys_shmat` of a segment returns its address, and `sys_shmdt` of that address then succeeds and undoes
-- the attachment: the segments are what they were. For an unknown identifier `sys_shmat` fails and
-- changes nothing.
pub shmdt-shmat :
    (m : Shm) (shmid : ℕ)
    → IsValid m
    → ((find_shm shmid m.segments ≡ none) × (sys_shmat shmid m ≡ (none, m)))
      ⊎ ((s : Segment) × (find_shm shmid m.segments ≡ some s)
          × ((sys_shmat shmid m).0 ≡ some s.phys_addr)
          × (sys_shmdt s.phys_addr (sys_shmat shmid m).1 ≡ some m))
unfolding sys_shmat IsValid
shmdt-shmat m shmid v = elim (Option-cases (find_shm shmid m.segments)) [
  | inl e ↦ inl (e, rw (sys_shmat, e) refl)
  | inr (s, e) ↦
      let run = shmat-run m shmid s e in
      let attached : Shm = with_segments (attach shmid m.segments) m in
      inr (
        s,
        e,
        ap (λ r. r.0) run,
        ap (λ r. sys_shmdt s.phys_addr r.1) run
            ∙ shmdt-run attached s.phys_addr m.segments (detach-attach m.segments shmid s v.0 e),
      )
]
