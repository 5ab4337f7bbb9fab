-- ===== src/Stamper/Sends.antt =====
-- otsserver/stamper.py: what a round and a loop of the sending leave of the stamper.
use Prim.Native.Nat.{zero, suc}
use opentimestamps_server.Prelude.{
  ℕ, ◌+◌, ◌≡◌, ◌≢◌, ◌∙◌, refl, false, Option, none, some, List, [], ◌∷◌, ◌++◌, Bytes, length, ◌==◌,
  Bool-cases, inl, inr, ◌⊎◌,
}
use opentimestamps_server.Prelude.Int.{ℤ, above}
use opentimestamps_server.Stamper.{OutPoint, Tx, UnconfirmedTimestampTx, Attempt, Stamper}
use opentimestamps_server.Stamper.Wallet.{
  Found, found, index_error, raises, Rate, raise_rate, update_timestamp_tx, get_tx_fee,
}
use opentimestamps_server.Stamper.Sending.{
  Sign, complete, incomplete, sign_raises, Send, accepted, refused, send_raises, Config, Node,
  Library, Round, sends, stops, fails, again, best_hash, same_attempt, after_send, after_sign,
  try_attempt, priced, updated, at_height, send_round, send_loop,
}

-- What the journal's coverage rests on is as it was.
pub record IsKept (s t : Stamper) : Type 0 where
  pub pending : t.pending_commitments ≡ s.pending_commitments
  pub mined : t.txs_waiting_for_confirmation ≡ s.txs_waiting_for_confirmation
  pub indexes : t.commitment_idxs ≡ s.commitment_idxs
  pub cursor : t.journal_cursor ≡ s.journal_cursor

abbrev pub same : (s : Stamper) → IsKept s s
same s = record { pending = refl; mined = refl; indexes = refl; cursor = refl }

pub IsKept-trans : (s t u : Stamper) → IsKept s t → IsKept t u → IsKept s u
IsKept-trans s t u h k = record {
  pending = k.pending ∙ h.pending;
  mined = k.mined ∙ h.mined;
  indexes = k.indexes ∙ h.indexes;
  cursor = k.cursor ∙ h.cursor;
}

-- The versions in flight are as they were, or the cycle is abandoned.
abbrev pub IsUnsent : Stamper → Stamper → Type 0
IsUnsent s t = (t.unconfirmed_txs ≡ s.unconfirmed_txs) ⊎ (t.unconfirmed_txs ≡ [])

-- A transaction that the node accepted: the signed update of an earlier one with the tip's message,
-- at a fee within the cap, by the node's own values of its inputs.
pub record IsAccepted (c : Config) (n : Node) (l : Library) (tip : Bytes) (tx : Tx) (fee : ℤ)
    : Type 0 where
  pub k : ℕ
  pub prev : Tx
  pub unsigned : Tx
  pub height : ℕ
  pub rate : Rate
  pub update : update_timestamp_tx l.weight prev tip height rate ≡ some unsigned
  pub fee_told : get_tx_fee (n.gettxout k) unsigned ≡ found fee
  pub capped : above fee c.max_fee ≡ false
  pub signed : n.sign k unsigned ≡ complete tx
  pub sent : n.send k tx ≡ accepted

abbrev pub IsRound : Config → Node → Library → Bytes → Stamper → Round → Type 0
IsRound c n l tip s (sends tx fee) = IsAccepted c n l tip tx fee
IsRound c n l tip s (stops t) = IsKept s t × IsUnsent s t
IsRound c n l tip s (fails t) = IsKept s t × IsUnsent s t
IsRound c n l tip s again = Unit {0}

module _ (c : Config) (n : Node) (l : Library) (k : ℕ) (prev : Tx) (tip : Bytes) (rate : Rate)
    (s : Stamper) where
  abbrev still : IsKept s s × IsUnsent s s
  still = (same s, inl refl)

  module _ (height : ℕ) (unsigned : Tx)
      (made : update_timestamp_tx l.weight prev tip height rate ≡ some unsigned) where
    module _ (fee : ℤ) (told : get_tx_fee (n.gettxout k) unsigned ≡ found fee)
        (capped : above fee c.max_fee ≡ false) where
      after_send-IsRound :
          (tx : Tx) (attempt : Attempt) (r : Send)
          → attempt.fee ≡ fee
          → n.sign k unsigned ≡ complete tx
          → n.send k tx ≡ r
          → IsRound c n l tip s (after_send unsigned tx attempt s r)
      after_send-IsRound tx attempt accepted same_fee signed sent = rw same_fee (record {
        k = k;
        prev = prev;
        unsigned = unsigned;
        height = height;
        rate = rate;
        update = made;
        fee_told = told;
        capped = capped;
        signed = signed;
        sent = sent;
      })
      after_send-IsRound tx attempt refused same_fee signed sent =
          elim (Bool-cases (length unsigned.vout == 1)) [
            | inl all_fee ↦
                rw all_fee
                  (record { pending = refl; mined = refl; indexes = refl; cursor = refl }, inl refl)
            | inr change ↦ rw change tt
          ]
      after_send-IsRound tx attempt send_raises same_fee signed sent = still

      after_sign-IsRound :
          (attempt : Attempt) (r : Sign)
          → attempt.fee ≡ fee
          → n.sign k unsigned ≡ r
          → IsRound c n l tip s (after_sign n k unsigned attempt s r)
      after_sign-IsRound attempt (complete tx) same_fee signed =
          after_send-IsRound tx attempt (n.send k tx) same_fee signed refl
      after_sign-IsRound attempt incomplete same_fee signed = still
      after_sign-IsRound attempt sign_raises same_fee signed = still

      try_attempt-IsRound :
          (vin : List OutPoint) → IsRound c n l tip s (try_attempt n k unsigned fee vin s)
      try_attempt-IsRound [] = still
      try_attempt-IsRound (prevout ∷ vin) =
          let attempt : Attempt = record {
            prevout = prevout;
            fee = fee;
            tip = best_hash s.known_blocks;
          } in
          elim (Bool-cases (same_attempt attempt s.refused_anchor)) [
            | inl known ↦ rw known still
            | inr new ↦ rw new (after_sign-IsRound attempt (n.sign k unsigned) refl refl)
          ]

    priced-IsRound :
        (o : Found ℤ)
        → get_tx_fee (n.gettxout k) unsigned ≡ o
        → IsRound c n l tip s (priced c n k unsigned o s)
    priced-IsRound (found fee) told = elim (Bool-cases (above fee c.max_fee)) [
      | inl high ↦ rw high still
      | inr within ↦ rw within (try_attempt-IsRound fee told within unsigned.vin)
    ]
    priced-IsRound index_error told =
        (record { pending = refl; mined = refl; indexes = refl; cursor = refl }, inr refl)
    priced-IsRound raises told = still

  updated-IsRound :
      (height : ℕ) (o : Option Tx)
      → update_timestamp_tx l.weight prev tip height rate ≡ o
      → IsRound c n l tip s (updated c n k o s)
  updated-IsRound height none made = still
  updated-IsRound height (some unsigned) made =
      priced-IsRound height unsigned made (get_tx_fee (n.gettxout k) unsigned) refl

  send_round-IsRound : IsRound c n l tip s (send_round c n l k prev tip rate s)
  unfolding send_round
  send_round-IsRound = told (n.getblockcount k)
    where
      told : (o : Option ℕ) → IsRound c n l tip s (at_height c n l k prev tip rate o s)
      told none = still
      told (some height) =
          updated-IsRound height (update_timestamp_tx l.weight prev tip height rate) refl

pub send_loop-IsRound :
    (fuel : ℕ) (c : Config) (n : Node) (l : Library) (k : ℕ) (prev : Tx) (tip : Bytes)
    (rate next : Rate) (s : Stamper)
    → IsRound c n l tip s (send_loop fuel c n l k prev tip rate next s)
unfolding send_loop
send_loop-IsRound zero c n l k prev tip rate next s = tt
send_loop-IsRound (suc fuel) c n l k prev tip rate next s =
    ends (send_round c n l k prev tip rate s) (send_round-IsRound c n l k prev tip rate s)
      (send_loop-IsRound fuel c n l (k + 1) prev tip (raise_rate next) (raise_rate next) s)
  where
    ends :
        (r : Round)
        → IsRound c n l tip s r
        → IsRound c n l tip s
            (send_loop fuel c n l (k + 1) prev tip (raise_rate next) (raise_rate next) s)
        → IsRound c n l tip s (elim r [
          | sends tx fee ↦ sends tx fee
          | stops t ↦ stops t
          | fails t ↦ fails t
          | again ↦ send_loop fuel c n l (k + 1) prev tip (raise_rate next) (raise_rate next) s
        ])
    ends (sends tx fee) h rest = h
    ends (stops t) h rest = h
    ends (fails t) h rest = h
    ends again h rest = rest

-- The versions in flight after a new one.
pub record IsSent (c : Config) (n : Node) (l : Library) (s t : Stamper) : Type 0 where
  pub version : UnconfirmedTimestampTx
  pub appended : t.unconfirmed_txs ≡ s.unconfirmed_txs ++ version ∷ []
  pub whole : version.n ≡ length s.pending_commitments
  pub over : version.tip ≡ l.tip_of s.pending_commitments
  pub accepted : IsAccepted c n l version.tip version.tx version.fee
  pub some_pending : length s.pending_commitments ≢ 0

abbrev pub IsPass : Config → Node → Library → Stamper → Stamper → Type 0
IsPass c n l s t = IsKept s t × (IsUnsent s t ⊎ IsSent c n l s t)
