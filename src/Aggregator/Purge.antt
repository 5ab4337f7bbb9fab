-- ===== src/Aggregator/Purge.antt =====
-- otsserver/calendar.py: the purge of expired entries at the head of `Aggregator.submit`.
use opentimestamps_server.Prelude.{
  ℕ, ◌≤◌, ◌<◌, ◌≡◌, refl, [], ◌∷◌, ◌++◌, Bytes, bytes_eq, length, ltb, arith, All, if◌then◌else◌,
  Bool-cases, inl, inr,
}
use opentimestamps_server.Prelude.Dict.{Dict, erase}
use opentimestamps_server.Aggregator.{Recent, purge, evict}

-- The entries stand in the order of their expiries, none of them later than `bound`.
abbrev pub IsOrdered : ℕ → Dict Recent → Type 0
IsOrdered bound [] = Unit {0}
IsOrdered bound ((k, e) ∷ d) =
    (e.expires_at ≤ bound)
    × All (λ (o : Bytes × Recent). e.expires_at ≤ o.1.expires_at) d
    × IsOrdered bound d

-- The entries that have not expired.
unfoldable pub unexpired : ℕ → Dict Recent → Dict Recent
unexpired now [] = []
unexpired now ((k, e) ∷ d) =
    if ltb now e.expires_at then (k, e) ∷ unexpired now d else unexpired now d

unexpired-All :
    (now t : ℕ) (d : Dict Recent)
    → now < t
    → All (λ (o : Bytes × Recent). t ≤ o.1.expires_at) d
    → unexpired now d ≡ d
unfolding unexpired
unexpired-All now t [] h all = refl
unexpired-All now t ((k, e) ∷ d) h all = ground (arith, unexpired-All now t d h all.1)

-- Where the entries stand in the order of their expiries, the purge from the front removes every
-- expired entry and no other.
pub purge-unexpired :
    (now bound : ℕ) (d : Dict Recent) → IsOrdered bound d → purge now d ≡ unexpired now d
unfolding purge unexpired
purge-unexpired now bound [] h = refl
purge-unexpired now bound ((k, e) ∷ d) h =
    ground (arith, unexpired-All now e.expires_at d, purge-unexpired now bound d h.2)

All-erase :
    (P : Bytes × Recent → Type 0) (msg : Bytes) (d : Dict Recent) → All P d → All P (erase msg d)
unfolding erase
All-erase P msg [] h = tt
All-erase P msg ((k, e) ∷ d) h = elim (Bool-cases (bytes_eq k msg)) [
  | inl same ↦ rw same (All-erase P msg d h.1)
  | inr other ↦ rw other (h.0, All-erase P msg d h.1)
]

pub purge-IsOrdered :
    (now bound : ℕ) (d : Dict Recent) → IsOrdered bound d → IsOrdered bound (purge now d)
unfolding purge
purge-IsOrdered now bound [] h = tt
purge-IsOrdered now bound ((k, e) ∷ d) h = elim (Bool-cases (ltb now e.expires_at)) [
  | inl on ↦ rw on h
  | inr off ↦ rw off (purge-IsOrdered now bound d h.2)
]

pub erase-IsOrdered :
    (bound : ℕ) (msg : Bytes) (d : Dict Recent) → IsOrdered bound d → IsOrdered bound (erase msg d)
unfolding erase
erase-IsOrdered bound msg [] h = tt
erase-IsOrdered bound msg ((k, e) ∷ d) h = elim (Bool-cases (bytes_eq k msg)) [
  | inl same ↦ rw same (erase-IsOrdered bound msg d h.2)
  | inr other ↦ rw other (h.0, All-erase _ msg d h.1, erase-IsOrdered bound msg d h.2)
]

All-snoc :
    (P : Bytes × Recent → Type 0) (d : Dict Recent) (x : Bytes × Recent)
    → All P d
    → P x
    → All P (d ++ x ∷ [])
All-snoc P [] x h p = (p, tt)
All-snoc P (y ∷ d) x h p = (h.0, All-snoc P d x h.1 p)

-- An entry at the back with the latest expiry.
pub snoc-IsOrdered :
    (old bound : ℕ) (d : Dict Recent) (msg : Bytes) (e : Recent)
    → IsOrdered old d
    → old ≤ bound
    → e.expires_at ≡ bound
    → IsOrdered bound (d ++ (msg, e) ∷ [])
snoc-IsOrdered old bound [] msg e h le at = (omega arith, tt, tt)
snoc-IsOrdered old bound ((k, f) ∷ d) msg e h le at = (
  omega arith,
  All-snoc _ d (msg, e) h.1 (omega arith),
  snoc-IsOrdered old bound d msg e h.2 le at,
)

pub evict-IsOrdered :
    (limit bound : ℕ) (d : Dict Recent) → IsOrdered bound d → IsOrdered bound (evict limit d)
unfolding evict
evict-IsOrdered limit bound [] h = tt
evict-IsOrdered limit bound ((k, e) ∷ d) h = elim (Bool-cases (ltb limit (length ((k, e) ∷ d)))) [
  | inl over ↦ rw over h.2
  | inr fits ↦ rw fits h
]
