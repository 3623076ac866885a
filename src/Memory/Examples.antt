-- ===== src/Memory/Examples.antt =====
-- Texts that look like secrets, and a text that is remembered.
use mosaid.Base.{ℕ, ◌≡◌, refl, true, false, codes}
use mosaid.Memory.{MemoryDb, is_secret, secret_here, after_word, key_of, remember, forget}
use mosaid.Memory.Clean.{IsKept, Step, Reach, empty, Reach-IsKept}

abbrev remembered : MemoryDb ℕ
remembered = (remember 1 empty 10 11 (codes " likes tea ")).0

Reach-IsKept_example : IsKept (forget remembered 2)
Reach-IsKept_example = Reach-IsKept (
    Reach.next (Reach.next Reach.here (Step.remembers 1 10 11 (codes " likes tea ")))
      (Step.forgets 2))

secrets :
    (is_secret (codes "my Api-Key = x") ≡ true)
    × (is_secret (codes "the secret garden") ≡ false)
    × (is_secret (codes "use sk-abcdefghijkl") ≡ true)
unfolding is_secret secret_here after_word key_of
secrets = (refl, refl, refl)
