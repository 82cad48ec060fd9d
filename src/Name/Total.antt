-- ===== src/Name/Total.antt =====
-- `name_length` on a whole name, and the expansion into the block that is allocated for it.
use c_ares.Base.{
  ℕ, ◌+◌, ◌-◌, ◌≤◌, ◌<◌, ◌≡◌, ◌≢◌, refl, arith, Bool, true, List, [], ◌∷◌, none, length, leb,
  length-drop_last,
}
use c_ares.Result.{ok}
use c_ares.Result.Ensures.{Ensures, returns, fails, Ensures-bind, Ensures-if, Ensures-self}
use c_ares.Cmd.{Buffer}
use c_ares.Cmd.Put.{Left, NoStatus, put-Ensures}
use c_ares.Wire.{peek}
use c_ares.Name.{is_indir, max_indirs, name_fuel, name_length, expand_loop, terminate}
use c_ares.Name.Agrees.{IsBadName, name_length_loop-Fits, name_length_loop-is_indir}

module _ (hostname : Bool) (abuf : List ℕ) (alen encoded : ℕ) where
  -- what a length `nlen` from `name_length` promises
  pub record NameFits (nlen : ℕ) : Type 0 where
    pub starts_inside : encoded < alen
    pub pointer_inside : (c : ℕ) → peek abuf encoded ≡ ok c → is_indir c ≡ true → encoded + 1 < alen
    pub fills :
        (q : Buffer)
        → nlen ≢ 0
        → q.room ≡ nlen + 1
        → Ensures NoStatus
            (λ y. Left 0 q y.0 × (1 ≤ y.1) × (encoded + y.1 ≤ alen))
            (expand_loop abuf encoded (name_fuel alen) encoded q none)

  -- For an `alen` up to the size of the message's block, `name_length` ends and reads inside the
  -- message. It fails with ARES_EBADNAME, or the name starts inside the message, both bytes of a
  -- pointer at its start are inside it, and, if the length is not 0, the expansion into a block of
  -- one byte more succeeds, fills the block exactly, and measures an encoded length that is not 0
  -- and ends inside the message.
  pub name_length-NameFits :
      alen ≤ length abuf → Ensures IsBadName NameFits (name_length hostname abuf alen encoded)
  unfolding name_length
  name_length-NameFits inside =
      Ensures-if (leb alen encoded) (λ _. fails refl)
        λ start.
          Ensures-bind
            (Ensures-self (
              name_length_loop-Fits hostname abuf alen encoded inside (name_fuel alen) max_indirs
                encoded 0 0 (ground arith) refl (omega arith)))
            λ n w. returns (record {
              starts_inside = ground arith;
              pointer_inside = λ c at ind.
                  name_length_loop-is_indir hostname abuf alen encoded inside (name_fuel alen)
                    encoded 0 0 n c w.0 at ind;
              fills = λ q nz room. w.1.1 q 0 none (ground arith) (omega arith);
            })

pub terminate-Ensures :
    (q : Buffer)
    → q.room + length q.text ≢ 0
    → Ensures NoStatus (λ text. length text ≡ length q.text - 1) (terminate q)
unfolding terminate
terminate-Ensures q h = cases q.room q.text h
  where
    cases :
        (room : ℕ) (text : List ℕ)
        → room + length text ≢ 0
        → Ensures NoStatus
            (λ t. length t ≡ length text - 1)
            (terminate (record { room = room; text = text }))
    cases room [] h =
        Ensures-bind (put-Ensures 0 _ (room - 1) (omega arith)) λ q w. returns (omega arith)
    cases room (x ∷ xs) h = returns (length-drop_last (x ∷ xs))
