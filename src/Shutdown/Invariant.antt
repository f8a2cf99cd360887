-- ===== src/Shutdown/Invariant.antt =====
-- What holds of the goroutines at every moment.
use nntp_history.Prelude.{
  ℕ, zero, suc, ◌+◌, ◌≤◌, Bool, true, false, List, [], ◌∷◌, ◌++◌, map, ◌≡◌, ◌⊎◌, inl, inr, refl,
  sym, ap, ◌∙◌, arith, length, ◌==◌, if◌then◌else◌,
}
use nntp_history.Shutdown.{Item, nil_pointer, request, Worker}

-- How often a request occurs among numbers, in a channel, in all channels of the workers.
abbrev pub count : ℕ → List ℕ → ℕ
count r [] = 0
count r (x ∷ xs) = (if x == r then 1 else 0) + count r xs

abbrev pub count_items : ℕ → List Item → ℕ
count_items r [] = 0
count_items r (nil_pointer ∷ xs) = count_items r xs
count_items r (request x ∷ xs) = (if x == r then 1 else 0) + count_items r xs

abbrev pub count_chans : ℕ → List Worker → ℕ
count_chans r [] = 0
count_chans r (w ∷ ws) = count_items r w.chan + count_chans r ws

-- The requests in IndexChan.
abbrev pub requests : List Item → ℕ
requests [] = 0
requests (nil_pointer ∷ xs) = requests xs
requests (request r ∷ xs) = suc (requests xs)

pub requests-append : (xs ys : List Item) → requests (xs ++ ys) ≡ requests xs + requests ys
requests-append [] ys = omega arith
requests-append (nil_pointer ∷ xs) ys = requests-append xs ys
requests-append (request r ∷ xs) ys = omega (arith, requests-append xs ys)

pub requests-map : (rs : List ℕ) → requests (map request rs) ≡ length rs
requests-map [] = refl
requests-map (r ∷ rs) = omega (arith, requests-map rs)

pub length-requests : (rs : List ℕ) → length (map request rs) ≡ length rs
length-requests [] = refl
length-requests (r ∷ rs) = omega (arith, length-requests rs)

pub count_items-map : (r : ℕ) (rs : List ℕ) → count_items r (map request rs) ≡ count r rs
count_items-map r [] = refl
count_items-map r (x ∷ rs) = omega (arith, count_items-map r rs)

pub count-append : (r : ℕ) (xs ys : List ℕ) → count r (xs ++ ys) ≡ count r xs + count r ys
count-append r [] ys = omega arith
count-append r (x ∷ xs) ys = ground (arith, count-append r xs ys)

pub count_items-append :
    (r : ℕ) (xs ys : List Item) → count_items r (xs ++ ys) ≡ count_items r xs + count_items r ys
count_items-append r [] ys = omega arith
count_items-append r (nil_pointer ∷ xs) ys = count_items-append r xs ys
count_items-append r (request x ∷ xs) ys = ground (arith, count_items-append r xs ys)

pub count_chans-append :
    (r : ℕ) (xs ys : List Worker) → count_chans r (xs ++ ys) ≡ count_chans r xs + count_chans r ys
count_chans-append r [] ys = omega arith
count_chans-append r (w ∷ ws) ys = omega (arith, count_chans-append r ws ys)

-- The channel of a worker: requests, and nil at their end once it was sent; a worker that ended has none left.
abbrev pub WorkerOk : Bool → Worker → Type 0
WorkerOk false w = (w.running ≡ true) × (cs : List ℕ) × (w.chan ≡ map request cs)
WorkerOk true w =
    ((w.running ≡ true) × (cs : List ℕ) × (w.chan ≡ map request cs ++ nil_pointer ∷ []))
    ⊎ ((w.running ≡ false) × (w.chan ≡ []))

-- So many workers were sent nil.
abbrev pub AllOk : ℕ → List Worker → Type 0
AllOk k [] = Unit
AllOk zero (w ∷ ws) = WorkerOk false w × AllOk zero ws
AllOk (suc k) (w ∷ ws) = WorkerOk true w × AllOk k ws

-- Whether the worker behind these was sent nil.
abbrev pub was_sent : ℕ → List Worker → Bool
was_sent zero ws = false
was_sent (suc k) [] = true
was_sent (suc k) (x ∷ ws) = was_sent k ws

pub was_sent_not_yet : (k : ℕ) (ws : List Worker) → k ≤ length ws → was_sent k ws ≡ false
was_sent_not_yet zero ws h = refl
was_sent_not_yet (suc k) [] h = absurd (omega arith)
was_sent_not_yet (suc k) (x ∷ ws) h = was_sent_not_yet k ws (omega arith)

pub AllOk-at :
    (k : ℕ) (ws vs : List Worker) (w : Worker) → AllOk k (ws ++ w ∷ vs) → WorkerOk (was_sent k ws) w
AllOk-at zero [] vs w (here, rest) = here
AllOk-at (suc k) [] vs w (here, rest) = here
AllOk-at zero (x ∷ ws) vs w (first, rest) = AllOk-at zero ws vs w rest
AllOk-at (suc k) (x ∷ ws) vs w (first, rest) = AllOk-at k ws vs w rest

pub AllOk-replace :
    (k : ℕ) (ws vs : List Worker) (w w' : Worker)
    → AllOk k (ws ++ w ∷ vs)
    → WorkerOk (was_sent k ws) w'
    → AllOk k (ws ++ w' ∷ vs)
AllOk-replace zero [] vs w w' (here, rest) h = (h, rest)
AllOk-replace (suc k) [] vs w w' (here, rest) h = (h, rest)
AllOk-replace zero (x ∷ ws) vs w w' (first, rest) h = (first, AllOk-replace zero ws vs w w' rest h)
AllOk-replace (suc k) (x ∷ ws) vs w w' (first, rest) h = (first, AllOk-replace k ws vs w w' rest h)

-- The next worker is sent nil.
pub AllOk-next :
    (k : ℕ) (ws vs : List Worker) (w w' : Worker)
    → length ws ≡ k
    → AllOk k (ws ++ w ∷ vs)
    → WorkerOk true w'
    → AllOk (suc k) (ws ++ w' ∷ vs)
AllOk-next zero [] vs w w' e (here, rest) h = (h, rest)
AllOk-next (suc k) [] vs w w' e all h = absurd (omega arith)
AllOk-next zero (x ∷ ws) vs w w' e all h = absurd (omega arith)
AllOk-next (suc k) (x ∷ ws) vs w w' e (first, rest) h =
    (first, AllOk-next k ws vs w w' (omega arith) rest h)

tail_of : {x y : Item} {xs ys : List Item} → x ∷ xs ≡ y ∷ ys → xs ≡ ys
tail_of e = cc

-- What a request that a worker received means for it.
pub WorkerOk-request :
    (b : Bool) (w : Worker) (r : ℕ) (c : List Item)
    → WorkerOk b w
    → w.chan ≡ request r ∷ c
    → WorkerOk b (record w { chan = c })
WorkerOk-request false w r c (on, [], e) h = cc
WorkerOk-request false w r c (on, x ∷ cs, e) h = (on, cs, tail_of (sym h ∙ e))
WorkerOk-request true w r c (inl (on, [], e)) h = cc
WorkerOk-request true w r c (inl (on, x ∷ cs, e)) h = inl (on, cs, tail_of (sym h ∙ e))
WorkerOk-request true w r c (inr (off, e)) h = cc

-- Nil reaches only a worker that it was sent to, and behind all requests.
pub WorkerOk-nil :
    (b : Bool) (w : Worker) (c : List Item)
    → WorkerOk b w
    → w.chan ≡ nil_pointer ∷ c
    → WorkerOk b (record w { running = false; chan = c })
WorkerOk-nil false w c (on, [], e) h = cc
WorkerOk-nil false w c (on, x ∷ cs, e) h = cc
WorkerOk-nil true w c (inl (on, [], e)) h = inr (refl, tail_of (sym h ∙ e))
WorkerOk-nil true w c (inl (on, x ∷ cs, e)) h = cc
WorkerOk-nil true w c (inr (off, e)) h = cc

-- More requests behind requests.
pub map-snoc : (cs : List ℕ) (r : ℕ) → map request cs ++ request r ∷ [] ≡ map request (cs ++ r ∷ [])
map-snoc [] r = refl
map-snoc (c ∷ cs) r = ap (λ t. request c ∷ t) (map-snoc cs r)
