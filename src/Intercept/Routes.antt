-- ===== src/Intercept/Routes.antt =====
-- Which hook takes the calls that happen while a hook of src/client/intercept.cpp runs.
use gekko_fwd.Base.{List, [], ◌∷◌, Bool, false, if◌then◌else◌}
use gekko_fwd.Intercept.Guard.{Route, to_hook, to_hook_internal, Event, syscall, cloned}

-- The route of each system call among the events: the library's own before the first clone, the
-- application's from then on.
abbrev pub expected : Bool → List Event → List Route
expected flag [] = []
expected flag (cloned ∷ es) = expected false es
expected flag (syscall forwards e ∷ es) =
    (if flag then to_hook_internal else to_hook) ∷ expected flag es
