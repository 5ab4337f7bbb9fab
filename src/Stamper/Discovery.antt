-- ===== src/Stamper/Discovery.antt =====
-- otsserver/stamper.py: the known blocks before and after `KnownBlocks.update_from_proxy`.
use Prim.Native.Nat.{zero, suc}
use opentimestamps_server.Prelude.{
  ℕ, ◌+◌, ◌≡◌, ◌∙◌, refl, sym, ap, subst, Option, none, some, List, [], ◌∷◌, ◌++◌, Bytes, bytes_eq,
  bytes_eq_iff, if◌then◌else◌, Bool-cases, inl, inr, ◌⊎◌,
}
use opentimestamps_server.Stamper.{KnownBlock}
use opentimestamps_server.Stamper.Headers.{
  Answer, block_hash, index_error, raises, Proxy, detect_reorgs, Scan, returned, raised, unfinished,
  Rest, append_block, first_height, next_block, at_tip, scan_round, scan_blocks, restored,
  update_from_proxy,
}

abbrev pub IsAmong : KnownBlock → List KnownBlock → Type 0
IsAmong b [] = ⊥
IsAmong b (c ∷ cs) = (c ≡ b) ⊎ IsAmong b cs

-- Each block stands one above the one before it.
abbrev pub IsChain : List KnownBlock → Type 0
IsChain [] = Unit {0}
IsChain (b ∷ []) = Unit {0}
IsChain (b ∷ c ∷ cs) = (b.height ≡ c.height + 1) × IsChain (c ∷ cs)

-- The newest block is one that the node named as the best, at some moment of the scan.
abbrev pub IsAtTip : Proxy → List KnownBlock → Type 0
IsAtTip p [] = ⊥
IsAtTip p (b ∷ bs) = (t : ℕ) × (p.getbestblockhash t ≡ some b.hash)

-- A block and the one below it, one after the other in a list.
abbrev pub IsNext : KnownBlock → KnownBlock → List KnownBlock → Type 0
IsNext b c [] = ⊥
IsNext b c (x ∷ []) = ⊥
IsNext b c (x ∷ y ∷ bs) = ((x ≡ b) × (y ≡ c)) ⊎ IsNext b c (y ∷ bs)

-- The node named the block for its height, at some moment of the scan.
abbrev pub IsNamed : Proxy → KnownBlock → Type 0
IsNamed p b = (u : ℕ) × (p.getblockhash u b.height ≡ block_hash b.hash)

-- The node named the lower block and, in its very next answer, the upper one.
abbrev pub IsAnswered : Proxy → KnownBlock → KnownBlock → Type 0
IsAnswered p b c =
    (u : ℕ) × (p.getblockhash u c.height ≡ block_hash c.hash)
    × (p.getblockhash (u + 1) b.height ≡ block_hash b.hash)

-- Each block stood on the one below it before the scan, or the node answered the two in a row.
abbrev pub IsLinked : Proxy → List KnownBlock → List KnownBlock → Type 0
IsLinked p known [] = Unit {0}
IsLinked p known (b ∷ []) = Unit {0}
IsLinked p known (b ∷ c ∷ cs) = (IsNext b c known ⊎ IsAnswered p b c) × IsLinked p known (c ∷ cs)

-- A scan over known blocks that form a chain, each of them old or new.
pub record IsTold (p : Proxy) (known blocks r : List KnownBlock) : Type 0 where
  pub told : (b : KnownBlock) → IsAmong b blocks → IsAmong b known ⊎ IsAmong b r
  pub named : (b : KnownBlock) → IsAmong b r → IsNamed p b
  pub chain : IsChain blocks
  pub linked : IsLinked p known blocks

abbrev pub IsGood : Proxy → List KnownBlock → Scan → Type 0
IsGood p known (returned r blocks) = IsTold p known blocks r × IsAtTip p blocks
IsGood p known raised = Unit {0}
IsGood p known unfinished = Unit {0}

IsAmong-append : (b : KnownBlock) (xs ys : List KnownBlock) → IsAmong b xs → IsAmong b (xs ++ ys)
IsAmong-append b [] ys h = absurd h
IsAmong-append b (x ∷ xs) ys (inl e) = inl e
IsAmong-append b (x ∷ xs) ys (inr h) = inr (IsAmong-append b xs ys h)

IsAmong-snoc : (b : KnownBlock) (xs : List KnownBlock) → IsAmong b (xs ++ b ∷ [])
IsAmong-snoc b [] = inl refl
IsAmong-snoc b (x ∷ xs) = inr (IsAmong-snoc b xs)

IsAmong-split :
    (b : KnownBlock) (xs : List KnownBlock) (c : KnownBlock)
    → IsAmong b (xs ++ c ∷ [])
    → IsAmong b xs ⊎ (c ≡ b)
IsAmong-split b [] c (inl e) = inr e
IsAmong-split b [] c (inr m) = absurd m
IsAmong-split b (x ∷ xs) c (inl e) = inl (inl e)
IsAmong-split b (x ∷ xs) c (inr m) = elim (IsAmong-split b xs c m) [
  | inl there ↦ inl (inr there)
  | inr e ↦ inr e
]

-- A list is linked by a longer one that it ends.
IsLinked-tail :
    (p : Proxy) (known blocks : List KnownBlock)
    → ((b c : KnownBlock) → IsNext b c blocks → IsNext b c known)
    → IsLinked p known blocks
IsLinked-tail p known [] ends = tt
IsLinked-tail p known (b ∷ []) ends = tt
IsLinked-tail p known (b ∷ c ∷ cs) ends =
    (inl (ends b c (inl (refl, refl))), IsLinked-tail p known (c ∷ cs) (λ x y n. ends x y (inr n)))

IsTold-tail :
    (p : Proxy) (known : List KnownBlock) (b : KnownBlock) (bs r : List KnownBlock)
    → IsTold p known (b ∷ bs) r
    → IsTold p known bs r
IsTold-tail p known b [] r h = record {
  told = λ c m. absurd m;
  named = h.named;
  chain = tt;
  linked = tt;
}
IsTold-tail p known b (c ∷ cs) r h = record {
  told = λ d m. h.told d (inr m);
  named = h.named;
  chain = h.chain.1;
  linked = h.linked.1;
}

-- The block that is kept as the newest is the one that the node has just named.
abbrev IsDetected :
    Proxy → List KnownBlock → List KnownBlock → Option (ℕ × List KnownBlock) → Type 0
IsDetected p known r none = Unit {0}
IsDetected p known r (some (t, [])) = IsTold p known [] r
IsDetected p known r (some (t, b ∷ bs)) =
    IsTold p known (b ∷ bs) r
    × (u : ℕ) × (t ≡ u + 1)
    × (p.getblockhash u b.height ≡ block_hash b.hash)

detect_reorgs-IsTold :
    (p : Proxy) (known : List KnownBlock) (t : ℕ) (blocks r : List KnownBlock)
    → IsTold p known blocks r
    → IsDetected p known r (detect_reorgs p t blocks)
unfolding detect_reorgs
detect_reorgs-IsTold p known t [] r h = h
detect_reorgs-IsTold p known t (b ∷ bs) r h =
    stands (p.getblockhash t b.height)
      (detect_reorgs-IsTold p known (t + 1) bs r (IsTold-tail p known b bs r h)) refl
  where
    stands :
        (a : Answer)
        → IsDetected p known r (detect_reorgs p (t + 1) bs)
        → p.getblockhash t b.height ≡ a
        → IsDetected p known r (elim a [
          | block_hash x ↦
              if bytes_eq x b.hash then some (t + 1, b ∷ bs) else detect_reorgs p (t + 1) bs
          | index_error ↦ detect_reorgs p (t + 1) bs
          | raises ↦ none
        ])
    stands (block_hash x) rest e = elim (Bool-cases (bytes_eq x b.hash)) [
      | inl same ↦ rw same (h, t, refl, e ∙ ap block_hash ((bytes_eq_iff x b.hash).0 same))
      | inr other ↦ rw other rest
    ]
    stands index_error rest e = rest
    stands raises rest e = tt

-- What a round needs of the rest of the scan.
abbrev IsGoodRest : Proxy → List KnownBlock → Rest → Type 0
IsGoodRest p known rest =
    (t : ℕ) (blocks r : List KnownBlock)
    → IsTold p known blocks r
    → IsGood p known (rest t blocks r)

module _ (p : Proxy) (known : List KnownBlock) (rest : Rest) (good : IsGoodRest p known rest) where
  append_block-IsGood :
      (t height : ℕ) (a : Answer) (blocks r : List KnownBlock)
      → p.getblockhash t height ≡ a
      → ((x : Bytes) → IsChain (record { height = height; hash = x } ∷ blocks))
      → ((x : Bytes)
          → a ≡ block_hash x
          → IsLinked p known (record { height = height; hash = x } ∷ blocks))
      → IsTold p known blocks r
      → IsGood p known (append_block rest t height a blocks r)
  append_block-IsGood t height (block_hash x) blocks r e chains links h =
      good (t + 1) (new ∷ blocks) (r ++ new ∷ []) (record {
        told = among;
        named = λ b m. names b (IsAmong-split b r new m);
        chain = chains x;
        linked = links x refl;
      })
    where
      new : KnownBlock
      new = record { height = height; hash = x }

      names : (b : KnownBlock) → IsAmong b r ⊎ (new ≡ b) → IsNamed p b
      names b (inl m) = h.named b m
      names b (inr same) = subst (IsNamed p) same (t, e)

      older :
          (b : KnownBlock)
          → IsAmong b known ⊎ IsAmong b r
          → IsAmong b known ⊎ IsAmong b (r ++ new ∷ [])
      older b (inl old) = inl old
      older b (inr there) = inr (IsAmong-append b r (new ∷ []) there)

      among :
          (b : KnownBlock) → IsAmong b (new ∷ blocks) → IsAmong b known ⊎ IsAmong b (r ++ new ∷ [])
      among b (inl e) = inr (subst (λ z. IsAmong z (r ++ new ∷ [])) e (IsAmong-snoc new r))
      among b (inr m) = older b (h.told b m)
  append_block-IsGood t height index_error blocks r e chains links h = good (t + 1) blocks r h
  append_block-IsGood t height raises blocks r e chains links h = tt

  first_height-IsGood :
      (t : ℕ) (o : Option ℕ) (r : List KnownBlock)
      → IsTold p known [] r
      → IsGood p known (first_height p rest t o r)
  first_height-IsGood t none r h = tt
  first_height-IsGood t (some height) r h =
      append_block-IsGood (t + 1) height (p.getblockhash (t + 1) height) [] r refl (λ x. tt)
        (λ x e. tt) h

  next_block-IsGood :
      (o : Option (ℕ × List KnownBlock)) (r : List KnownBlock)
      → IsDetected p known r o
      → IsGood p known (next_block p rest o r)
  next_block-IsGood none r h = tt
  next_block-IsGood (some (t, [])) r h = first_height-IsGood t (p.getblockcount t) r h
  next_block-IsGood (some (t, b ∷ bs)) r (h, u, now, named) =
      append_block-IsGood t (b.height + 1) (p.getblockhash t (b.height + 1)) (b ∷ bs) r refl
        (λ x. (refl, h.chain))
        (λ x e. (inr (u, named, ap (λ v. p.getblockhash v (b.height + 1)) (sym now) ∙ e), h.linked))
        h

  at_tip-IsGood :
      (t : ℕ) (o : Option Bytes) (b : KnownBlock) (bs r : List KnownBlock)
      → p.getbestblockhash t ≡ o
      → IsTold p known (b ∷ bs) r
      → IsGood p known (at_tip p rest t o b bs r)
  at_tip-IsGood t none b bs r e h = tt
  at_tip-IsGood t (some best) b bs r e h = elim (Bool-cases (bytes_eq best b.hash)) [
    | inl same ↦ rw same (h, (t, e ∙ ap some ((bytes_eq_iff best b.hash).0 same)))
    | inr other ↦ rw other (
        next_block-IsGood (detect_reorgs p (t + 1) (b ∷ bs)) r
          (detect_reorgs-IsTold p known (t + 1) (b ∷ bs) r h))
  ]

  scan_round-IsGood : IsGoodRest p known (scan_round p rest)
  scan_round-IsGood t [] r h =
      next_block-IsGood (detect_reorgs p t []) r (detect_reorgs-IsTold p known t [] r h)
  scan_round-IsGood t (b ∷ bs) r h = at_tip-IsGood t (p.getbestblockhash t) b bs r refl h

scan_blocks-IsGood :
    (fuel : ℕ) (p : Proxy) (known : List KnownBlock) → IsGoodRest p known (scan_blocks fuel p)
unfolding scan_blocks
scan_blocks-IsGood zero p known t blocks r h = tt
scan_blocks-IsGood (suc fuel) p known t blocks r h =
    scan_round-IsGood p known (scan_blocks fuel p) (scan_blocks-IsGood fuel p known) t blocks r h

-- What an update leaves: nothing new where it did not return; and otherwise a chain whose newest
-- block the node named as the best, each block of it known before or returned, and linked.
abbrev pub IsUpdated : Proxy → List KnownBlock → Option (List KnownBlock) × List KnownBlock → Type 0
IsUpdated p known (none, blocks) = blocks ≡ known
IsUpdated p known (some r, blocks) = IsTold p known blocks r × IsAtTip p blocks

restored-IsUpdated :
    (p : Proxy) (known : List KnownBlock) (s : Scan)
    → IsGood p known s
    → IsUpdated p known (restored known s)
restored-IsUpdated p known (returned r blocks) h = h
restored-IsUpdated p known raised h = refl
restored-IsUpdated p known unfinished h = refl

-- Whatever the node answers to each call, reorgs in the middle of the scan included, and for every
-- number of rounds: an update that does not return leaves the known blocks as they were. One that
-- returns leaves a chain of heights whose newest block the node named as the best; every block of it
-- was known before or is among the returned ones; every returned block the node named for its
-- height; and of every two neighbours, both were known as neighbours before, or the node named the
-- lower one for its height and in its very next answer the upper one. The known blocks form a chain
-- before.
pub update_from_proxy-IsUpdated :
    (fuel : ℕ) (p : Proxy) (known : List KnownBlock)
    → IsChain known
    → IsUpdated p known (update_from_proxy fuel p known)
unfolding update_from_proxy
update_from_proxy-IsUpdated fuel p known chain =
    restored-IsUpdated p known (scan_blocks fuel p 0 known []) (
      scan_blocks-IsGood fuel p known 0 known [] (record {
        told = λ b m. inl m;
        named = λ b m. absurd m;
        chain = chain;
        linked = IsLinked-tail p known known (λ b c n. n);
      }))
