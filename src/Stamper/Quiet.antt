-- ===== src/Stamper/Quiet.antt =====
-- otsserver/stamper.py: `KnownBlocks.update_from_proxy` on a chain that stands still.
use Prim.Native.Nat.{zero, suc}
use mathlib.Core.Option.{some-injective}
use opentimestamps_server.Prelude.{
  is_some, ℕ, ◌+◌, ◌-◌, ◌≤◌, ◌<◌, ◌≡◌, ◌∙◌, refl, sym, ap, true, false, Option, none, some, List,
  [], ◌∷◌, ◌++◌, Bytes, bytes_eq, bytes_eq_iff, if◌then◌else◌, Bool-cases, inl, inr, ℕ_discrete,
  dec_le, arith,
}
use opentimestamps_server.Stamper.{KnownBlock}
use opentimestamps_server.Stamper.Headers.{
  Answer, block_hash, index_error, raises, Proxy, detect_reorgs, Scan, returned, raised, unfinished,
  next_block, scan_blocks, restored, update_from_proxy,
}

-- During the scan the node has the chain of these hashes up to the height `n`.
pub record IsQuiet (p : Proxy) (chain : ℕ → Bytes) (n : ℕ) : Type 0 where
  pub best : (t : ℕ) → p.getbestblockhash t ≡ some (chain n)
  pub count : (t : ℕ) → p.getblockcount t ≡ some n
  pub inside : (t h : ℕ) → h ≤ n → p.getblockhash t h ≡ block_hash (chain h)
  pub outside : (t h : ℕ) → n < h → p.getblockhash t h ≡ index_error

abbrev IsReturned : Scan → Type 0
IsReturned (returned r blocks) = Unit {0}
IsReturned raised = ⊥
IsReturned unfinished = ⊥

module _ (p : Proxy) (chain : ℕ → Bytes) (n : ℕ) (q : IsQuiet p chain n) where
  -- The newest block is one of the node's, if there is one.
  abbrev IsMatched : Option (ℕ × List KnownBlock) → Type 0
  IsMatched none = ⊥
  IsMatched (some (t, [])) = Unit {0}
  IsMatched (some (t, b ∷ bs)) = (b.hash ≡ chain b.height) × (b.height ≤ n)

  detect_reorgs-IsMatched :
      (t : ℕ) (blocks : List KnownBlock) → IsMatched (detect_reorgs p t blocks)
  unfolding detect_reorgs
  detect_reorgs-IsMatched t [] = tt
  detect_reorgs-IsMatched t (b ∷ bs) =
      stands (p.getblockhash t b.height) refl (detect_reorgs-IsMatched (t + 1) bs)
    where
      hash_in : Answer → Option Bytes
      hash_in (block_hash x) = some x
      hash_in index_error = none
      hash_in raises = none

      at_height :
          (x : Bytes)
          → p.getblockhash t b.height ≡ block_hash x
          → (x ≡ chain b.height) × (b.height ≤ n)
      at_height x e = elim (dec_le b.height n) [
        | yes le ↦
            (some-injective x (chain b.height) (ap hash_in (sym e ∙ q.inside t b.height le)), le)
        | no above ↦ absurd (past (ap hash_in (sym (q.outside t b.height (omega arith)) ∙ e)))
      ]
        where
          past : none ≡ some x → ⊥
          past u = cc

      never : p.getblockhash t b.height ≡ raises → ⊥
      never e = elim (dec_le b.height n) [
        | yes le ↦ differ (sym (q.inside t b.height le) ∙ e)
        | no above ↦ differ_too (sym (q.outside t b.height (omega arith)) ∙ e)
      ]
        where
          differ : block_hash (chain b.height) ≡ raises → ⊥
          differ u = cc

          differ_too : index_error ≡ raises → ⊥
          differ_too u = cc

      stands :
          (a : Answer)
          → p.getblockhash t b.height ≡ a
          → IsMatched (detect_reorgs p (t + 1) bs)
          → IsMatched (elim a [
            | block_hash x ↦
                if bytes_eq x b.hash then some (t + 1, b ∷ bs) else detect_reorgs p (t + 1) bs
            | index_error ↦ detect_reorgs p (t + 1) bs
            | raises ↦ none
          ])
      stands (block_hash x) e rest = elim (Bool-cases (bytes_eq x b.hash)) [
        | inl same ↦
            rw same (sym ((bytes_eq_iff x b.hash).0 same) ∙ (at_height x e).0, (at_height x e).1)
        | inr other ↦ rw other rest
      ]
      stands index_error e rest = rest
      stands raises e rest = absurd (never e)

  matched_top :
      (u : ℕ) (b : KnownBlock) (bs : List KnownBlock)
      → b.hash ≡ chain b.height
      → b.height ≤ n
      → detect_reorgs p u (b ∷ bs) ≡ some (u + 1, b ∷ bs)
  unfolding detect_reorgs
  matched_top u b bs same le =
      rw (q.inside u b.height le, detect_reorgs)
        (rw ((bytes_eq_iff (chain b.height) b.hash).1 (sym same)) refl)

  -- From a block of the node's, `d` heights below the tip.
  scan_matched :
      (d fuel t : ℕ) (b : KnownBlock) (bs r : List KnownBlock)
      → b.hash ≡ chain b.height
      → b.height + d ≡ n
      → d < fuel
      → IsReturned (scan_blocks fuel p t (b ∷ bs) r)
  unfolding scan_blocks
  scan_matched d zero t b bs r same place lt = absurd (omega arith)
  scan_matched d (suc fuel) t b bs r same place lt =
      rw (q.best t) (elim (Bool-cases (bytes_eq (chain n) b.hash)) [
        | inl tip ↦ rw tip tt
        | inr below ↦ rw below (
            rw (kept (t + 1)) (
              rw (q.inside (t + 1 + 1) (b.height + 1) (under below)) (
                scan_matched (d - 1) fuel (t + 1 + 1 + 1)
                  (record { height = b.height + 1; hash = chain (b.height + 1) }) (b ∷ bs)
                  (r ++ record { height = b.height + 1; hash = chain (b.height + 1) } ∷ []) refl
                  (omega (arith, under below)) (omega (arith, under below)))))
      ])
    where
      kept : (u : ℕ) → detect_reorgs p u (b ∷ bs) ≡ some (u + 1, b ∷ bs)
      kept u = matched_top u b bs same (omega arith)

      under : bytes_eq (chain n) b.hash ≡ false → b.height + 1 ≤ n
      under below = elim (ℕ_discrete d 0) [
        | yes z ↦ absurd (wrong (at_tip_hash z) below)
        | no nz ↦ omega arith
      ]
        where
          wrong : chain n ≡ b.hash → bytes_eq (chain n) b.hash ≡ false → ⊥
          wrong e f = ground (arith, bytes_eq_iff (chain n) b.hash)

          at_tip_hash : d ≡ 0 → chain n ≡ b.hash
          at_tip_hash z = let here : n ≡ b.height = omega arith in ap chain here ∙ sym same

  -- After one round over any known blocks, the newest block is one of the node's.
  first_round :
      (fuel : ℕ) (o : Option (ℕ × List KnownBlock)) (r : List KnownBlock)
      → n < fuel
      → IsMatched o
      → IsReturned (next_block p (scan_blocks fuel p) o r)
  first_round fuel none r lt h = absurd h
  first_round fuel (some (t, [])) r lt h = rw (q.count t) (
      rw (q.inside (t + 1) n (omega arith)) (
        scan_matched 0 fuel (t + 1 + 1) (record { height = n; hash = chain n }) []
          (r ++ record { height = n; hash = chain n } ∷ []) refl (omega arith) (omega arith)))
  first_round fuel (some (t, b ∷ bs)) r lt h = elim (dec_le (b.height + 1) n) [
    | yes le ↦ rw (q.inside t (b.height + 1) le) (
        scan_matched (n - (b.height + 1)) fuel (t + 1)
          (record { height = b.height + 1; hash = chain (b.height + 1) }) (b ∷ bs)
          (r ++ record { height = b.height + 1; hash = chain (b.height + 1) } ∷ []) refl
          (omega arith) (omega arith))
    | no top ↦
        rw (q.outside t (b.height + 1) (omega arith))
          (scan_matched 0 fuel (t + 1) b bs r h.0 (omega (arith, h.1)) (omega arith))
  ]

  scan-IsReturned :
      (fuel t : ℕ) (blocks r : List KnownBlock)
      → n < fuel
      → IsReturned (scan_blocks (suc fuel) p t blocks r)
  unfolding scan_blocks
  scan-IsReturned fuel t [] r lt =
      first_round fuel (detect_reorgs p t []) r lt (detect_reorgs-IsMatched t [])
  scan-IsReturned fuel t (b ∷ bs) r lt =
      rw (q.best t) (elim (Bool-cases (bytes_eq (chain n) b.hash)) [
        | inl tip ↦ rw tip tt
        | inr other ↦ rw other (
            first_round fuel (detect_reorgs p (t + 1) (b ∷ bs)) r lt
              (detect_reorgs-IsMatched (t + 1) (b ∷ bs)))
      ])

restored_some :
    (known : List KnownBlock) (s : Scan) → IsReturned s → is_some (restored known s).0 ≡ true
restored_some known (returned r blocks) h = refl
restored_some known raised h = absurd h
restored_some known unfinished h = absurd h

-- Where the node's chain does not change during the scan, an update returns, from whatever blocks
-- were known: two more rounds than the height of the node's tip are enough.
pub update_from_proxy_returns :
    (p : Proxy) (chain : ℕ → Bytes) (n : ℕ) (known : List KnownBlock)
    → IsQuiet p chain n
    → is_some (update_from_proxy (suc (suc n)) p known).0 ≡ true
unfolding update_from_proxy
update_from_proxy_returns p chain n known q =
    restored_some known (scan_blocks (suc (suc n)) p 0 known [])
      (scan-IsReturned p chain n q (suc n) 0 known [] (omega arith))
