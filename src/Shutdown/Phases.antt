-- ===== src/Shutdown/Phases.antt =====
-- What IndexChan holds while a history runs and ends, and how the steps change it.
use nntp_history.Prelude.{
  ℕ, suc, ◌+◌, ◌<◌, ◌≤◌, Bool, true, false, List, [], ◌∷◌, ◌++◌, append_assoc, map, ◌≡◌, refl, sym,
  ap, ◌∙◌, arith, length, length-append,
}
use nntp_history.Shutdown.{Item, nil_pointer, request, Worker, State}
use nntp_history.Shutdown.Invariant.{
  map-snoc, count, count_items, requests, count-append, count_items-append, requests-append,
  requests-map, count_items-map,
}

-- No request waits that was not sent behind the nil of the writer.
abbrev pub IsLate : List Item → List ℕ → Type 0
IsLate q late = ((r : ℕ) → count_items r q ≤ count r late) × (requests q ≤ length late)

module _ (route : ℕ → ℕ) (par cap : ℕ) where
  -- IndexChan holds requests, then nil behind them and late requests behind it. When the first goroutine received nil,
  -- there are late requests with a nil among them, or a goroutine holds the nil, or IndexChan was closed.
  pub data Phase (s : State) : Type 0 where
    serving :
        (rs : List ℕ)
        → s.writer_on ≡ true
        → s.closed ≡ false
        → s.queue ≡ map request rs
        → s.idle + length s.held ≡ par
        → s.passing ≡ 0
        → s.late ≡ []
        → Phase s
    closing :
        (rs : List ℕ)
        → s.writer_on ≡ false
        → s.closed ≡ false
        → s.queue ≡ map request rs ++ nil_pointer ∷ map request s.late
        → s.idle + length s.held ≡ par
        → s.passing ≡ 0
        → Phase s
    draining :
        (rs ls : List ℕ)
        → s.writer_on ≡ false
        → s.closed ≡ false
        → s.queue ≡ map request rs ++ nil_pointer ∷ map request ls
        → s.idle + length s.held < par
        → s.passing ≡ 0
        → IsLate s.queue s.late
        → Phase s
    passing_nil :
        (rs : List ℕ)
        → s.writer_on ≡ false
        → s.closed ≡ false
        → s.queue ≡ map request rs
        → s.idle + length s.held < par
        → s.passing ≡ 1
        → IsLate s.queue s.late
        → Phase s
    shut :
        s.writer_on ≡ false
        → s.closed ≡ true
        → s.idle + length s.held + s.passing ≡ 0
        → IsLate s.queue s.late
        → Phase s

  tail_of : {x y : Item} {xs ys : List Item} → x ∷ xs ≡ y ∷ ys → xs ≡ ys
  tail_of e = cc

  more :
      {q : List Item} (rs : List ℕ) (r : ℕ)
      → q ≡ map request rs
      → q ++ request r ∷ [] ≡ map request (rs ++ r ∷ [])
  more rs r e = ap (λ q. q ++ request r ∷ []) e ∙ map-snoc rs r

  more_behind :
      {q : List Item} (rs ls : List ℕ) (r : ℕ)
      → q ≡ map request rs ++ nil_pointer ∷ map request ls
      → q ++ request r ∷ [] ≡ map request rs ++ nil_pointer ∷ map request (ls ++ r ∷ [])
  more_behind rs ls r e =
      ap (λ q. q ++ request r ∷ []) e
      ∙ append_assoc (map request rs) (nil_pointer ∷ map request ls) (request r ∷ [])
      ∙ ap (λ q. map request rs ++ nil_pointer ∷ q) (map-snoc ls r)

  IsLate-more :
      (q : List Item) (late : List ℕ) (r : ℕ)
      → IsLate q late
      → IsLate (q ++ request r ∷ []) (late ++ r ∷ [])
  IsLate-more q late r (counts, few) = (
    λ x.
        omega
          (arith, counts x, count_items-append x q (request r ∷ []), count-append x late (r ∷ [])),
    omega (arith, requests-append q (request r ∷ []), length-append late (r ∷ [])),
  )

  IsLate-nil : (q : List Item) (late : List ℕ) → IsLate q late → IsLate (q ++ nil_pointer ∷ []) late
  IsLate-nil q late (counts, few) = (
    λ x. omega (arith, counts x, count_items-append x q (nil_pointer ∷ [])),
    omega (arith, requests-append q (nil_pointer ∷ [])),
  )

  -- What is left when the first element was received.
  IsLate-request :
      (q q' : List Item) (late : List ℕ) (r : ℕ)
      → q ≡ request r ∷ q'
      → IsLate q late
      → IsLate q' late
  IsLate-request q q' late r e (counts, few) =
      (λ x. omega (arith, counts x, ap (count_items x) e), omega (arith, ap requests e))

  IsLate-front :
      (q q' : List Item) (late : List ℕ) → q ≡ nil_pointer ∷ q' → IsLate q late → IsLate q' late
  IsLate-front q q' late e (counts, few) =
      (λ x. omega (arith, counts x, ap (count_items x) e), omega (arith, ap requests e))

  pub Phase-arrives :
      (s : State) (r : ℕ)
      → Phase s
      → s.writer_on ≡ true
      → Phase (record s { queue = s.queue ++ request r ∷ []; accepted = r ∷ s.accepted })
  Phase-arrives s r (serving rs on open_ e n p l) h =
      serving (rs ++ r ∷ []) on open_ (more rs r e) n p l
  Phase-arrives s r (closing rs off open_ e n p) h = cc
  Phase-arrives s r (draining rs ls off open_ e n p l) h = cc
  Phase-arrives s r (passing_nil rs off open_ e n p l) h = cc
  Phase-arrives s r (shut off c z l) h = cc

  pub Phase-arrives_late :
      (s : State) (r : ℕ)
      → Phase s
      → s.writer_on ≡ false
      → s.closed ≡ false
      → Phase (record s { queue = s.queue ++ request r ∷ []; late = s.late ++ r ∷ [] })
  Phase-arrives_late s r (serving rs on open_ e n p l) h o = cc
  Phase-arrives_late s r (closing rs off open_ e n p) h o =
      closing rs off open_ (more_behind rs s.late r e) n p
  Phase-arrives_late s r (draining rs ls off open_ e n p l) h o =
      draining rs (ls ++ r ∷ []) off open_ (more_behind rs ls r e) n p
        (IsLate-more s.queue s.late r l)
  Phase-arrives_late s r (passing_nil rs off open_ e n p l) h o =
      passing_nil (rs ++ r ∷ []) off open_ (more rs r e) n p (IsLate-more s.queue s.late r l)
  Phase-arrives_late s r (shut off c z l) h o = cc

  pub Phase-writer_ends :
      (s : State)
      → Phase s
      → s.writer_on ≡ true
      → Phase (record s { queue = s.queue ++ nil_pointer ∷ []; writer_on = false })
  Phase-writer_ends s (serving rs on open_ e n p l) h =
      closing rs refl open_
        (ap (λ q. q ++ nil_pointer ∷ []) e
          ∙ ap (λ t. map request rs ++ nil_pointer ∷ map request t) (sym l))
        n p
  Phase-writer_ends s (closing rs off open_ e n p) h = cc
  Phase-writer_ends s (draining rs ls off open_ e n p l) h = cc
  Phase-writer_ends s (passing_nil rs off open_ e n p l) h = cc
  Phase-writer_ends s (shut off c z l) h = cc

  pub Phase-receives :
      (s : State) (i r : ℕ) (q : List Item)
      → Phase s
      → s.idle ≡ suc i
      → s.queue ≡ request r ∷ q
      → Phase (record s { queue = q; idle = i; held = r ∷ s.held })
  Phase-receives s i r q (serving [] on open_ e n p l) idle front = cc
  Phase-receives s i r q (serving (x ∷ rs) on open_ e n p l) idle front =
      serving rs on open_ (tail_of (sym front ∙ e)) (omega arith) p l
  Phase-receives s i r q (closing [] off open_ e n p) idle front = cc
  Phase-receives s i r q (closing (x ∷ rs) off open_ e n p) idle front =
      closing rs off open_ (tail_of (sym front ∙ e)) (omega arith) p
  Phase-receives s i r q (draining [] ls off open_ e n p l) idle front = cc
  Phase-receives s i r q (draining (x ∷ rs) ls off open_ e n p l) idle front =
      draining rs ls off open_ (tail_of (sym front ∙ e)) (omega arith) p
        (IsLate-request s.queue q s.late r front l)
  Phase-receives s i r q (passing_nil [] off open_ e n p l) idle front = cc
  Phase-receives s i r q (passing_nil (x ∷ rs) off open_ e n p l) idle front =
      passing_nil rs off open_ (tail_of (sym front ∙ e)) (omega arith) p
        (IsLate-request s.queue q s.late r front l)
  Phase-receives s i r q (shut off c z l) idle front = absurd (omega arith)

  pub nil_of_length : (xs : List ℕ) → length xs ≡ 0 → xs ≡ []
  nil_of_length [] h = refl
  nil_of_length (x ∷ xs) h = absurd (omega arith)

  pub Phase-gets_nil :
      (s : State) (i : ℕ) (q : List Item)
      → Phase s
      → s.idle ≡ suc i
      → s.queue ≡ nil_pointer ∷ q
      → Phase (record s { queue = q; idle = i; passing = s.passing + 1 })
  Phase-gets_nil s i q (serving [] on open_ e n p l) idle front = cc
  Phase-gets_nil s i q (serving (x ∷ rs) on open_ e n p l) idle front = cc
  Phase-gets_nil s i q (closing [] off open_ e n p) idle front =
      let rest : q ≡ map request s.late = tail_of (sym front ∙ e) in
      passing_nil s.late off open_ rest (omega arith) (omega arith) (
        λ x. omega (arith, ap (count_items x) rest, count_items-map x s.late),
        omega (arith, ap requests rest, requests-map s.late),
      )
  Phase-gets_nil s i q (closing (x ∷ rs) off open_ e n p) idle front = cc
  Phase-gets_nil s i q (draining [] ls off open_ e n p l) idle front =
      passing_nil ls off open_ (tail_of (sym front ∙ e)) (omega arith) (omega arith)
        (IsLate-front s.queue q s.late front l)
  Phase-gets_nil s i q (draining (x ∷ rs) ls off open_ e n p l) idle front = cc
  Phase-gets_nil s i q (passing_nil [] off open_ e n p l) idle front = cc
  Phase-gets_nil s i q (passing_nil (x ∷ rs) off open_ e n p l) idle front = cc
  Phase-gets_nil s i q (shut off c z l) idle front = absurd (omega arith)

  pub Phase-passes_on :
      (s : State) (k : ℕ)
      → Phase s
      → s.passing ≡ suc k
      → Phase (record s { queue = s.queue ++ nil_pointer ∷ []; passing = k })
  Phase-passes_on s k (serving rs on open_ e n p l) h = absurd (omega arith)
  Phase-passes_on s k (closing rs off open_ e n p) h = absurd (omega arith)
  Phase-passes_on s k (draining rs ls off open_ e n p l) h = absurd (omega arith)
  Phase-passes_on s k (passing_nil rs off open_ e n p l) h =
      draining rs [] off open_ (ap (λ q. q ++ nil_pointer ∷ []) e) n (omega arith)
        (IsLate-nil s.queue s.late l)
  Phase-passes_on s k (shut off c z l) h = absurd (omega arith)

  pub Phase-closes_chan :
      (s : State) (k : ℕ)
      → Phase s
      → par ≡ 1
      → s.passing ≡ suc k
      → Phase (record s { closed = true; passing = k })
  Phase-closes_chan s k (serving rs on open_ e n p l) one h = absurd (omega arith)
  Phase-closes_chan s k (closing rs off open_ e n p) one h = absurd (omega arith)
  Phase-closes_chan s k (draining rs ls off open_ e n p l) one h = absurd (omega arith)
  Phase-closes_chan s k (passing_nil rs off open_ e n p l) one h = shut off refl (omega arith) l
  Phase-closes_chan s k (shut off c z l) one h = absurd (omega arith)

  -- A phase asks only how many goroutines are left.
  pub Phase-moves :
      (s : State) (idle : ℕ) (held : List ℕ) (workers : List Worker)
      → Phase s
      → idle + length held ≡ s.idle + length s.held
      → Phase (record s { idle = idle; held = held; workers = workers })
  Phase-moves s idle held workers (serving rs on open_ e n p l) same =
      serving rs on open_ e (same ∙ n) p l
  Phase-moves s idle held workers (closing rs off open_ e n p) same =
      closing rs off open_ e (same ∙ n) p
  Phase-moves s idle held workers (draining rs ls off open_ e n p l) same =
      draining rs ls off open_ e (omega arith) p l
  Phase-moves s idle held workers (passing_nil rs off open_ e n p l) same =
      passing_nil rs off open_ e (omega arith) p l
  Phase-moves s idle held workers (shut off c z l) same = shut off c (omega arith) l

  -- Nor does it ask for the workers, nor for what they did, nor whether the program ended.
  pub Phase-workers :
      (s : State) (workers : List Worker) (sent : ℕ) (handled : List ℕ) (index_on panicked : Bool)
      → Phase s
      → Phase (record s {
        workers = workers;
        sent = sent;
        handled = handled;
        index_on = index_on;
        panicked = panicked;
      })
  Phase-workers s ws k hs on pd (serving rs o c e n p l) = serving rs o c e n p l
  Phase-workers s ws k hs on pd (closing rs o c e n p) = closing rs o c e n p
  Phase-workers s ws k hs on pd (draining rs ls o c e n p l) = draining rs ls o c e n p l
  Phase-workers s ws k hs on pd (passing_nil rs o c e n p l) = passing_nil rs o c e n p l
  Phase-workers s ws k hs on pd (shut o c z l) = shut o c z l
