-- ===== src/RequestQueue/Order.antt =====
-- The queue is one list in the order of the priorities, first in first out within one.
use kongjaexpress.Prelude.{
  ℕ, zero, suc, ◌+◌, ◌≤◌, ◌<◌, ◌≡◌, refl, sym, ap, ◌∙◌, List, [], ◌∷◌, ◌++◌, Option, none, some,
  arith, leb, if◌then◌else◌, get_or, set, length, append_assoc,
}
use kongjaexpress.Prelude.Bytes.{All, All-append}
use kongjaexpress.RequestQueue.{RequestItem, schedule_loop, put_back, cancelled}

-- behind all requests of the same or a more urgent priority, before the others
unfoldable pub insert : RequestItem → List RequestItem → List RequestItem
insert item [] = item ∷ []
insert item (x ∷ xs) =
    let rest = insert item xs in if leb x.priority item.priority then x ∷ rest else item ∷ x ∷ xs

-- the list of each priority holds that priority, from `p` on
unfoldable pub IsPlaced : ℕ → List (List RequestItem) → Type 0
IsPlaced p [] = Unit
IsPlaced p (items ∷ lists) = All (λ x. x.priority ≡ p) items × IsPlaced (suc p) lists

insert-append :
    (p : ℕ) (item : RequestItem) (xs ys : List RequestItem)
    → All (λ x. x.priority ≡ p) xs
    → p ≤ item.priority
    → insert item (xs ++ ys) ≡ xs ++ insert item ys
unfolding insert
insert-append p item [] ys all le = refl
insert-append p item (x ∷ xs) ys all le = ground (arith, insert-append p item xs ys all.1 le, all.0)

insert-front :
    (p : ℕ) (item : RequestItem) (lists : List (List RequestItem))
    → IsPlaced p lists
    → item.priority < p
    → insert item (cancelled lists) ≡ item ∷ cancelled lists
unfolding insert cancelled IsPlaced
insert-front p item [] placed lt = refl
insert-front p item ([] ∷ lists) placed lt = insert-front (suc p) item lists placed.1 (omega arith)
insert-front p item ((x ∷ xs) ∷ lists) placed lt = ground (arith, placed.0.0)

-- A request that is appended to the list of its priority.
pub submit-insert :
    (p k : ℕ) (item : RequestItem) (lists : List (List RequestItem))
    → IsPlaced p lists
    → item.priority ≡ p + k
    → k < length lists
    → (cancelled (set lists k (get_or lists k [] ++ item ∷ [])) ≡ insert item (cancelled lists))
      × IsPlaced p (set lists k (get_or lists k [] ++ item ∷ []))
unfolding cancelled IsPlaced
submit-insert p k item [] placed e h = absurd (omega arith)
submit-insert p zero item (items ∷ lists) placed e h = (
  append_assoc items (item ∷ []) (cancelled lists)
      ∙ ap (λ (t : List RequestItem). items ++ t)
          (sym (insert-front (suc p) item lists placed.1 (omega arith)))
      ∙ sym (insert-append p item items (cancelled lists) placed.0 (omega arith)),
  (All-append (λ x. x.priority ≡ p) items (item ∷ []) placed.0 (omega arith, tt), placed.1),
)
submit-insert p (suc k) item (items ∷ lists) placed e h =
    let (same, placed') = submit-insert (suc p) k item lists placed.1 (omega arith) (omega arith) in
    (
      ap (λ (t : List RequestItem). items ++ t) same
          ∙ sym (insert-append p item items (cancelled lists) placed.0 (omega arith)),
      (placed.0, placed'),
    )

-- what the loop of the scheduler finds
unfoldable pub Popped :
    ℕ → List (List RequestItem) → Option (RequestItem × List (List RequestItem)) → Type 0
Popped p lists none = cancelled lists ≡ []
Popped p lists (some (item, rest)) =
    (cancelled lists ≡ item ∷ cancelled rest) × (IsPlaced p rest) × (length rest ≡ length lists)

put_back-Popped :
    (p : ℕ) (lists : List (List RequestItem)) (o : Option (RequestItem × List (List RequestItem)))
    → Popped (suc p) lists o
    → Popped p ([] ∷ lists) (put_back [] o)
unfolding Popped cancelled IsPlaced
put_back-Popped p lists none h = h
put_back-Popped p lists (some (item, rest)) h = (h.0, (tt, h.1), ap suc h.2)

pub schedule_loop-Popped :
    (p : ℕ) (lists : List (List RequestItem))
    → IsPlaced p lists
    → Popped p lists (schedule_loop lists)
unfolding schedule_loop Popped cancelled IsPlaced
schedule_loop-Popped p [] placed = refl
schedule_loop-Popped p ([] ∷ lists) placed =
    put_back-Popped p lists (schedule_loop lists) (schedule_loop-Popped (suc p) lists placed.1)
schedule_loop-Popped p ((item ∷ items) ∷ lists) placed = (refl, (placed.0.1, placed.1), refl)
