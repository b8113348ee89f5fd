-- ===== src/Tests/Classes.antt =====
-- Registered class objects.
use axhost.Common.{ℕ, [], ◌∷◌, ◌≡◌, true, List}
use axhost.ClassSpec.{ClassSpec, empty_spec}
use axhost.Com.Table.{objects, object_laws, no_objects, Objects}
use axhost.Surrogate.{register_all_class_factories}
use axhost.Surrogate.Cookies.{Tracks, register_all_class_factories-Tracks, contains-nil}
use axhost.Surrogate.Failures.{
  results, first_failure, Tried, all_flags, register_all_class_factories-Tried,
}

-- A class that can be registered, and the null class, which cannot.
abbrev pub two_specs : List ClassSpec
two_specs = record empty_spec { clsid = 7; regcls = 1; regcls_explicit = true } ∷ empty_spec ∷ []

abbrev out : List ClassSpec × ℕ × List ℕ × Objects
out = register_all_class_factories objects two_specs true 0 ([], no_objects)

nothing-Tracks : Tracks objects object_laws ([], no_objects)
nothing-Tracks = record { distinct = tt; same = λ k. rw contains-nil }

register_all_class_factories-Tried_example :
    Tried objects (all_flags true 0) two_specs out.0 ([], no_objects) (out.2, out.3)
    × (out.1 ≡ first_failure (results out.0))
register_all_class_factories-Tried_example =
    register_all_class_factories-Tried objects two_specs true 0 ([], no_objects)

register_all_class_factories-Tracks_example : Tracks objects object_laws (out.2, out.3)
register_all_class_factories-Tracks_example =
    register_all_class_factories-Tracks objects object_laws two_specs true 0 [] no_objects
      nothing-Tracks
