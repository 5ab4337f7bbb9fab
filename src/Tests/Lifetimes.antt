-- ===== src/Tests/Lifetimes.antt =====
-- A calendar from its creation to the first read of its first entry.
use mathlib.Core.Option.{some-injective}
use opentimestamps_server.Prelude.{
  ℕ, ◌≡◌, refl, false, some, [], ◌∷◌, Bytes, elem, get_elem?, zero, suc, ap,
}
use opentimestamps_server.Stamper.Fill.{entry, fill_pending}
use opentimestamps_server.Stamper.Coverage.{IsFaithful}
use opentimestamps_server.System.{
  System, created, started_at, IsReachable, first, after, append, start, fill,
}
use opentimestamps_server.System.Reach.{IsAccounted, reachable-IsAccounted}
use opentimestamps_server.Tests.Anchors.{commitment, journal_reads, text_of, reads}

abbrev appended : System
appended = record created { journal = commitment ∷ [] }

abbrev up : System
up = record appended { stamper = some (started_at 5 0) }

abbrev filled : System
filled = record appended { stamper = some (fill_pending 4 10 reads (started_at 5 0)) }

reads-IsFaithful : IsFaithful (get_elem? (commitment ∷ [])) [] reads
reads-IsFaithful = record {
  entries = told;
  members = λ c b e. unfold elem in some-injective false b e;
}
  where
    told : (i : ℕ) (c : Bytes) → journal_reads i ≡ entry c → get_elem? (commitment ∷ []) i ≡ some c
    told zero c e = ap text_of e
    told (suc i) c e = cc

filled-IsReachable : IsReachable filled
filled-IsReachable =
    after (after (after first (append commitment refl)) (start 5 refl refl))
      (fill (started_at 5 0) 4 10 reads refl reads-IsFaithful refl)

reachable-IsAccounted_example : IsAccounted filled
reachable-IsAccounted_example = reachable-IsAccounted filled filled-IsReachable
