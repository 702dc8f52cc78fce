-- ===== src/Prelude/Goes.antt =====
-- Loops over a list whose steps may fail, as a relation.
use butane.Prelude.{List, [], ◌∷◌, Result, ok, err, ◌≡◌}

-- One step after the other, in the order of the list, from a state to the one that the loop leaves and its
-- result. The first step that fails is the last; it leaves the state that it was begun in, and its error is
-- told.
pub data Goes {S A E F : Type 0} (step : A → S → Result E S) (tell : E → F)
    : List A → S → S × Result F (Unit {0}) → Type 0 where
  done : (s : S) → Goes step tell [] s (s, ok tt)
  fails :
      (a : A) (l : List A) (s : S) (e : E)
      → step a s ≡ err e
      → Goes step tell (a ∷ l) s (s, err (tell e))
  goes_on :
      (a : A) (l : List A) (s s' : S) (end : S × Result F (Unit {0}))
      → step a s ≡ ok s'
      → Goes step tell l s' end
      → Goes step tell (a ∷ l) s end
