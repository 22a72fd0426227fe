-- ===== src/Reconcile/Dict.antt =====
-- The dictionary of the broker's positions in src/c4_exec/reconcile.py.
use news_pipeline.Base.{ℕ, ◌==◌, ◌≡◌, refl, none, some, List, [], ◌∷◌, All, arith, if◌then◌else◌}
use news_pipeline.Reconcile.{BrokerPosition, put, put_all, by_ticker, position_at}

module _ {F : Type 0} where
  abbrev pub IsUnique : List (BrokerPosition F) → Type 0
  IsUnique [] = Unit
  IsUnique (q ∷ qs) = (position_at qs q.ticker ≡ none) × IsUnique qs

  -- Each position of the dictionary is the one found under its ticker.
  abbrev pub IsKeyed : List (BrokerPosition F) → Type 0
  IsKeyed dict = All (λ bp. position_at dict bp.ticker ≡ some bp) dict

  put-position_at :
      (p : BrokerPosition F) (t : ℕ) (qs : List (BrokerPosition F))
      → position_at (put p qs) t ≡ (if p.ticker == t then some p else position_at qs t)
  unfolding put
  put-position_at p t [] = refl
  put-position_at p t (q ∷ qs) = ground (arith, put-position_at p t qs)

  put-IsUnique :
      (p : BrokerPosition F) (qs : List (BrokerPosition F)) → IsUnique qs → IsUnique (put p qs)
  unfolding put
  put-IsUnique p [] h = (refl, tt)
  put-IsUnique p (q ∷ qs) h =
      ground (arith, put-position_at p q.ticker qs, put-IsUnique p qs h.1, h)

  put_all-IsUnique :
      (ps dict : List (BrokerPosition F)) → IsUnique dict → IsUnique (put_all ps dict)
  unfolding put_all
  put_all-IsUnique [] dict h = h
  put_all-IsUnique (p ∷ ps) dict h = put_all-IsUnique ps (put p dict) (put-IsUnique p dict h)

  pub by_ticker-IsUnique : (ps : List (BrokerPosition F)) → IsUnique (by_ticker ps)
  unfolding by_ticker
  by_ticker-IsUnique ps = put_all-IsUnique ps [] tt

  weaken_found :
      (q : BrokerPosition F) (all part : List (BrokerPosition F))
      → position_at all q.ticker ≡ none
      → All (λ bp. position_at all bp.ticker ≡ some bp) part
      → All (λ bp. position_at (q ∷ all) bp.ticker ≡ some bp) part
  weaken_found q all [] new h = tt
  weaken_found q all (bp ∷ bps) new h = (grind (arith, new, h.0), weaken_found q all bps new h.1)

  IsUnique-IsKeyed : (dict : List (BrokerPosition F)) → IsUnique dict → IsKeyed dict
  IsUnique-IsKeyed [] h = tt
  IsUnique-IsKeyed (q ∷ qs) h = (ground arith, weaken_found q qs qs h.0 (IsUnique-IsKeyed qs h.1))

  pub by_ticker-IsKeyed : (ps : List (BrokerPosition F)) → IsKeyed (by_ticker ps)
  unfolding by_ticker
  by_ticker-IsKeyed ps = IsUnique-IsKeyed (put_all ps []) (put_all-IsUnique ps [] tt)
