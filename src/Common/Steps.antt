-- ===== src/Common/Steps.antt =====
-- The states that a step relation leads to.

pub data Reachable {A : Type 0} (Step : A → A → Type 0) (start : A) : A → Type 0 where
  begin : Reachable Step start start
  go : {c d : A} → Reachable Step start c → Step c d → Reachable Step start d

-- What holds at the start and is kept by every step holds in every state reached.
pub invariant :
    {A : Type 0} (Step : A → A → Type 0) (P : A → Type 0) (start : A)
    → P start
    → ((c d : A) → Step c d → P c → P d)
    → (e : A) → Reachable Step start e
    → P e
invariant Step P start base keep e begin = base
invariant Step P start base keep e (go r s) = keep _ e s (invariant Step P start base keep _ r)
