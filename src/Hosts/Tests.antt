-- ===== src/Hosts/Tests.antt =====
-- A hosts file of one line, and one whose last line has no end.
use native.Mathlib.Decide.{ℕ_discrete}
use aegor_x.Prelude.{◌≡◌, refl, List, [], ◌∷◌, ◌++◌}
use aegor_x.Dns.Domain.{Text, Text-discrete, strip, lstrip}
use aegor_x.Hosts.{
  marker_start, splitlines, outside, strip_block, entry_of, block_of, install, remove,
}
use aegor_x.Hosts.Blocks.{of_text, install-undone}

abbrev as_given : List Text → List Text
as_given xs = xs

abbrev tracker : Text
tracker = b't' ∷ b'.' ∷ b'c' ∷ b'o' ∷ []

abbrev localhost : Text
localhost = b':' ∷ b':' ∷ b'1' ∷ 32 ∷ b'h' ∷ 10 ∷ []

install-undone_example :
    ((remove (install as_given (tracker ∷ []) (of_text localhost)).0).0 ≡ of_text localhost)
    × ((install as_given (localhost ∷ []) (install as_given (tracker ∷ []) (of_text localhost)).0).0
        ≡ (install as_given (localhost ∷ []) (of_text localhost)).0)
unfolding splitlines strip lstrip Text-discrete ℕ_discrete
install-undone_example =
    install-undone as_given localhost tracker localhost [] [] (record { same = λ p xs. refl })
      (record { ended = refl; others = refl }) refl

-- Without the end of the last line the block is not found again: its domains stay, its end goes.
stays :
    strip_block (b'h' ∷ block_of as_given (tracker ∷ []))
    ≡ b'h' ∷ (marker_start ++ (10 ∷ (entry_of tracker ++ 10 ∷ [])))
unfolding strip_block splitlines outside strip lstrip Text-discrete ℕ_discrete
stays = refl
