-- ===== src/Ops/Tests.antt =====
-- The integrity check at a concrete root.
use self_spawn_agents.Prelude.{
  ◌*◌, ◌≡◌, refl, none, [], ok, err, Text, codes, take, map, file_not_found,
}
use self_spawn_agents.Ops.Simulation.{tick}
use self_spawn_agents.Ops.Freeze.{
  Root, frozen_paths, freeze, verify, verify_exit_code, read_lock, compute_hashes, hashes_of,
}
use self_spawn_agents.Ops.Freeze.RoundTrip.{Frozen, freeze-Frozen}

abbrev digest : Text → Text
digest s = take 2 s

abbrev root : Root
root = record { files = map (λ p. (p, codes "x = 1")) frozen_paths; lock = none }

abbrev frozen : Root
frozen = (freeze digest root).1

frozen_is_clean : verify digest frozen ≡ ok []
unfolding freeze verify compute_hashes hashes_of read_lock
frozen_is_clean = refl

exit_of_frozen : verify_exit_code digest frozen ≡ 0
unfolding freeze verify_exit_code compute_hashes hashes_of read_lock
exit_of_frozen = refl

missing_file : verify digest (record { files = []; lock = none }) ≡ err file_not_found
unfolding verify compute_hashes hashes_of
missing_file = refl

freeze-Frozen_example : Frozen digest root (freeze digest root)
freeze-Frozen_example = freeze-Frozen digest root

-- 224 simulated seconds for each real one.
tick_length : tick ≡ 224 * 1000000
unfolding tick
tick_length = refl
