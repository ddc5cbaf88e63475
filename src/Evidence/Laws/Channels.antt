-- ===== src/Evidence/Laws/Channels.antt =====
-- E3: what the verdict on the channels says of them.
use frontier_refactor_factor.Prelude.{
  ◌≡◌, ◌≤◌, refl, String, Bool, not, ◌&&◌, List, [], ◌∷◌, arith, ◌==◌, if◌then◌else◌, is_nil, any,
  all, length,
}
use frontier_refactor_factor.Evidence.{holds, fails, inconclusive}
use frontier_refactor_factor.Evidence.Checks.{scan_channels, channels_bite}

module _ (perturb : String → Bool × Bool) where
  -- The channel was made to differ, and the verifier did not notice.
  abbrev pub is_blind : String → Bool
  is_blind c = (perturb c).0 && not (perturb c).1

  abbrev pub is_inert : String → Bool
  is_inert c = not (perturb c).0

  any-is_blind :
      (channels : List String)
      → not (is_nil (scan_channels perturb channels).0) ≡ any is_blind channels
  unfolding scan_channels
  any-is_blind [] = refl
  any-is_blind (c ∷ channels) = ground (arith, any-is_blind channels)

  inert-le : (channels : List String) → length (scan_channels perturb channels).1 ≤ length channels
  unfolding scan_channels
  inert-le [] = omega arith
  inert-le (c ∷ channels) = ground (arith, inert-le channels)

  all-is_inert :
      (channels : List String)
      → (length (scan_channels perturb channels).1 == length channels) ≡ all is_inert channels
  unfolding scan_channels
  all-is_inert [] = refl
  all-is_inert (c ∷ channels) = ground (arith, all-is_inert channels, inert-le channels)

  -- E3 on every input: a failure exactly when some channel was made to differ unnoticed, and
  -- otherwise inconclusive exactly when no channel could be made to differ (none at all included).
  pub channels_bite_lem :
      (channels : List String)
      → (channels_bite perturb channels).outcome ≡ (
          if any is_blind channels
          then fails
          else if all is_inert channels
          then inconclusive
          else holds)
  unfolding channels_bite
  channels_bite_lem [] = refl
  channels_bite_lem (c ∷ cs) = ground (arith, any-is_blind (c ∷ cs), all-is_inert (c ∷ cs))
