-- ===== src/Network/Registry/Traffic.antt =====
-- Byte accounting (`record_tx`, `record_rx`, `traffic`) over any sequence of messages.
use sandpolis.Prelude.{
  ℕ, ◌+◌, ◌%◌, ◌^◌, ◌<◌, ◌≡◌, refl, Bool, false, none, some, List, [], ◌∷◌, arith, ◌==◌,
  if◌then◌else◌, ◌||◌, Bool-cases, inl, inr, eqb_true, ◌∙◌,
}
use sandpolis.Network.Registry.{StreamCounters, Registry, no_traffic, record_rx, record_tx, traffic}

-- A message of a stream that crossed the socket, with its size.
pub data Crossing : Type 0 where
  received sent : ℕ → ℕ → Crossing

module _ {H F : Type 0} where
  account : Crossing → Registry H F → Registry H F
  account (received id bytes) r = record_rx id bytes r
  account (sent id bytes) r = record_tx id bytes r

  pub account_all : List Crossing → Registry H F → Registry H F
  unfolding account
  account_all [] r = r
  account_all (c ∷ cs) r = account_all cs (account c r)

-- What an observer of the socket counts for one stream.
abbrev pub bytes_received : ℕ → List Crossing → ℕ
bytes_received id [] = 0
bytes_received id (received j n ∷ cs) =
    let rest = bytes_received id cs in if j == id then n + rest else rest
bytes_received id (sent j n ∷ cs) = bytes_received id cs

abbrev pub bytes_sent : ℕ → List Crossing → ℕ
bytes_sent id [] = 0
bytes_sent id (received j n ∷ cs) = bytes_sent id cs
bytes_sent id (sent j n ∷ cs) = let rest = bytes_sent id cs in if j == id then n + rest else rest

abbrev pub crossed : ℕ → List Crossing → Bool
crossed id [] = false
crossed id (received j n ∷ cs) = j == id || crossed id cs
crossed id (sent j n ∷ cs) = j == id || crossed id cs

abbrev pub added : ℕ → ℕ → StreamCounters → StreamCounters
added rx tx c = record { rx = (c.rx + rx) % 2 ^ 64; tx = (c.tx + tx) % 2 ^ 64 }

module _ (id : ℕ) where
  received_cons :
      (x : Crossing) (cs : List Crossing)
      → bytes_received id (x ∷ cs) ≡ bytes_received id (x ∷ []) + bytes_received id cs
  received_cons (received j n) cs = ground arith
  received_cons (sent j n) cs = ground arith

  sent_cons :
      (x : Crossing) (cs : List Crossing)
      → bytes_sent id (x ∷ cs) ≡ bytes_sent id (x ∷ []) + bytes_sent id cs
  sent_cons (received j n) cs = ground arith
  sent_cons (sent j n) cs = ground arith

  crossed_cons :
      (x : Crossing) (cs : List Crossing)
      → crossed id (x ∷ cs) ≡ (crossed id (x ∷ []) || crossed id cs)
  crossed_cons (received j n) cs = ground arith
  crossed_cons (sent j n) cs = ground arith

  not_crossed :
      (x : Crossing)
      → crossed id (x ∷ []) ≡ false
      → (bytes_received id (x ∷ []) ≡ 0) × (bytes_sent id (x ∷ []) ≡ 0)
  not_crossed (received j n) e = ground arith
  not_crossed (sent j n) e = ground arith

module _ {H F : Type 0} (id : ℕ) where
  account_counted :
      (x : Crossing) (r : Registry H F) {c : StreamCounters}
      → r.traffic id ≡ some c
      → c.rx < 2 ^ 64
      → c.tx < 2 ^ 64
      → (account x r).traffic id
        ≡ some (added (bytes_received id (x ∷ [])) (bytes_sent id (x ∷ [])) c)
  unfolding account record_rx record_tx
  account_counted (received j n) r p a b = ground (arith, eqb_true j id)
  account_counted (sent j n) r p a b = ground (arith, eqb_true j id)

  account_fresh :
      (x : Crossing) (r : Registry H F)
      → r.traffic id ≡ none
      → (account x r).traffic id ≡ (
          if crossed id (x ∷ [])
          then some (added (bytes_received id (x ∷ [])) (bytes_sent id (x ∷ [])) no_traffic)
          else none)
  unfolding account record_rx record_tx
  account_fresh (received j n) r p = ground (arith, eqb_true j id)
  account_fresh (sent j n) r p = ground (arith, eqb_true j id)

  counted :
      (cs : List Crossing) (r : Registry H F) (c : StreamCounters)
      → r.traffic id ≡ some c
      → c.rx < 2 ^ 64
      → c.tx < 2 ^ 64
      → (account_all cs r).traffic id ≡ some (added (bytes_received id cs) (bytes_sent id cs) c)
  unfolding account_all
  counted [] r c p a b = ground arith
  counted (x ∷ cs) r c p a b =
      counted cs (account x r) _ (account_counted x r p a b) (omega arith) (omega arith)
      ∙ ground (arith, received_cons id x cs, sent_cons id x cs)

  counted_fresh :
      (cs : List Crossing) (r : Registry H F)
      → r.traffic id ≡ none
      → (account_all cs r).traffic id ≡ (
          if crossed id cs
          then some (added (bytes_received id cs) (bytes_sent id cs) no_traffic)
          else none)
  unfolding account_all
  counted_fresh [] r p = p
  counted_fresh (x ∷ cs) r p = elim (Bool-cases (crossed id (x ∷ []))) [
    | inl t ↦
        counted cs (account x r)
          (added (bytes_received id (x ∷ [])) (bytes_sent id (x ∷ [])) no_traffic)
          (rw (account_fresh x r p, t) refl) (omega arith) (omega arith)
        ∙ ground (arith, received_cons id x cs, sent_cons id x cs, crossed_cons id x cs)
    | inr f ↦
        counted_fresh cs (account x r) (rw (account_fresh x r p, f) refl)
        ∙ ground (
          arith,
          received_cons id x cs,
          sent_cons id x cs,
          crossed_cons id x cs,
          not_crossed id x f,
        )
  ]

  -- After any sequence of messages over a connection that had not counted the stream yet,
  -- `traffic` reports the bytes received and the bytes sent on that stream, each modulo 2^64, and
  -- reports nothing exactly when none of the messages was of that stream.
  pub traffic_total :
      (cs : List Crossing) (r : Registry H F)
      → r.traffic id ≡ none
      → traffic id (account_all cs r) ≡ (
          if crossed id cs
          then some (bytes_received id cs % 2 ^ 64, bytes_sent id cs % 2 ^ 64)
          else none)
  unfolding traffic
  traffic_total cs r p = rw (counted_fresh cs r p) (ground arith)
