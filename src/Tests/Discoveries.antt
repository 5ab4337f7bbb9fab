-- ===== src/Tests/Discoveries.antt =====
-- A node of three blocks, and a stamper that knows one of them.
use opentimestamps_server.Prelude.{
  ℕ, suc, ◌≡◌, refl, true, some, List, [], ◌∷◌, Bytes, if◌then◌else◌, leb, is_some, arith,
}
use opentimestamps_server.Stamper.{KnownBlock}
use opentimestamps_server.Stamper.Headers.{block_hash, index_error, Proxy, update_from_proxy}
use opentimestamps_server.Stamper.Discovery.{IsUpdated, update_from_proxy-IsUpdated}
use opentimestamps_server.Stamper.Quiet.{IsQuiet, update_from_proxy_returns}

abbrev chain : ℕ → Bytes
chain h = h ∷ []

abbrev node : Proxy
node = record {
  getbestblockhash = λ t. some (chain 2);
  getblockcount = λ t. some 2;
  getblockhash = λ t h. if leb h 2 then block_hash (chain h) else index_error;
}

node-IsQuiet : IsQuiet node chain 2
node-IsQuiet = record {
  best = λ t. refl;
  count = λ t. refl;
  inside = λ t h le. ground arith;
  outside = λ t h lt. ground arith;
}

-- The second of these was replaced by the node's.
abbrev known : List KnownBlock
known = record { height = 1; hash = 9 ∷ [] } ∷ record { height = 0; hash = 0 ∷ [] } ∷ []

update_from_proxy-IsUpdated_example : IsUpdated node known (update_from_proxy 4 node known)
update_from_proxy-IsUpdated_example = update_from_proxy-IsUpdated 4 node known (refl, tt)

update_from_proxy_returns_example : is_some (update_from_proxy (suc (suc 2)) node known).0 ≡ true
update_from_proxy_returns_example = update_from_proxy_returns node chain 2 known node-IsQuiet
