-- ===== src/Worker/Order.antt =====
-- The worker answers each request once, in the order of the requests.
use netfyr.Base.{
  ℕ, suc, zero, ◌<◌, ◌≤◌, ◌≡◌, refl, sym, ap, ◌∙◌, arith, String, Option, List, [], ◌∷◌, ◌++◌,
  length,
}
use mathlib.Core.List.{append_assoc}
use netfyr.Value.{IpAddr}
use netfyr.Worker.{
  Request, Reply, Transport, Worker, capacity, handle, answer, enqueue, Step, send, notify, serve,
}

-- The numbers of the first requests.
abbrev pub first_numbers : ℕ → List ℕ
first_numbers zero = []
first_numbers (suc n) = first_numbers n ++ n ∷ []

abbrev pub numbers : {A : Type 0} → List (ℕ × A) → List ℕ
numbers [] = []
numbers ((i, a) ∷ l) = i ∷ numbers l

numbers-append :
    {A : Type 0} (l : List (ℕ × A)) (i : ℕ) (a : A)
    → numbers (l ++ (i, a) ∷ []) ≡ numbers l ++ i ∷ []
numbers-append [] i a = refl
numbers-append ((j, b) ∷ l) i a = ap (λ x. j ∷ x) (numbers-append l i a)

length-append_one : {A : Type 0} (l : List A) (a : A) → length (l ++ a ∷ []) ≡ suc (length l)
length-append_one [] a = refl
length-append_one (b ∷ l) a = ap suc (length-append_one l a)

module _ {W : Type 0} (pa : String → Option IpAddr) (t : Transport W) where
  -- Any number of rounds and sends, from the left.
  pub data Steps (s : Worker W) : Worker W → Type 0 where
    start : Steps s s
    then_step : {s₁ s₂ : Worker W} → Steps s s₁ → Step pa t s₁ s₂ → Steps s s₂

  -- The requests that were answered, then those that wait, are all that were submitted, in order; and
  -- no more wait than the channel holds.
  pub record IsOrdered (s : Worker W) : Type 0 where
    pub in_order : numbers s.replies ++ numbers s.waiting ≡ first_numbers s.submitted
    pub bounded : length s.waiting ≤ capacity

  abbrev pub fresh : W → Worker W
  fresh w = record { submitted = 0; waiting = []; replies = []; world = w }

  enqueue-IsOrdered :
      (s : Worker W) (q : Request)
      → length s.waiting < capacity
      → IsOrdered s
      → IsOrdered (enqueue pa t q s)
  enqueue-IsOrdered s q room h = record {
    in_order =
        ap (λ x. numbers s.replies ++ x) (numbers-append s.waiting s.submitted q)
        ∙ sym (append_assoc (numbers s.replies) (numbers s.waiting) (s.submitted ∷ []))
        ∙ ap (λ x. x ++ s.submitted ∷ []) h.in_order;
    bounded = omega (arith, length-append_one s.waiting (s.submitted, q));
  }

  answer-IsOrdered :
      (s : Worker W) (id : ℕ) (q : Request) (rest : List (ℕ × Request)) (x : Reply × W)
      → s.waiting ≡ (id, q) ∷ rest
      → IsOrdered s
      → IsOrdered (answer pa t id rest s x)
  answer-IsOrdered s id q rest (reply, w) e h = record {
    in_order =
        ap (λ x. x ++ numbers rest) (numbers-append s.replies id reply)
        ∙ append_assoc (numbers s.replies) (id ∷ []) (numbers rest)
        ∙ ap (λ x. numbers s.replies ++ numbers x) (sym e)
        ∙ h.in_order;
    bounded =
        let count : length s.waiting ≡ suc (length rest) = ap length e in
        let most = h.bounded in omega (arith, count, most);
  }

  Step-IsOrdered : (s s' : Worker W) → Step pa t s s' → IsOrdered s → IsOrdered s'
  Step-IsOrdered s _ (send q room) h = enqueue-IsOrdered s q room h
  Step-IsOrdered s _ notify h = record { in_order = h.in_order; bounded = h.bounded }
  Step-IsOrdered s _ (serve id q rest e) h =
      answer-IsOrdered s id q rest (handle pa t q s.world) e h

  steps-IsOrdered : (s s' : Worker W) → Steps s s' → IsOrdered s → IsOrdered s'
  steps-IsOrdered s _ start h = h
  steps-IsOrdered s _ (then_step {s₁} {s₂} run one) h =
      Step-IsOrdered s₁ s₂ one (steps-IsOrdered s s₁ run h)

  -- In every state that a new worker reaches, by requests, notifications and rounds in any order, the
  -- requests that were answered followed by those that wait are exactly the submitted ones, each once
  -- and in the order of submission, and at most sixteen wait.
  pub Steps-IsOrdered : (w : W) (s : Worker W) → Steps (fresh w) s → IsOrdered s
  Steps-IsOrdered w s run =
      steps-IsOrdered (fresh w) s run (record { in_order = refl; bounded = omega arith })
