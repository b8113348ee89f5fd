-- ===== src/Tests/Containers.antt =====
-- Containers of a widget that loads one class.
use axhost.Common.{ℕ, true, false, ◌+◌, ◌==◌, ◌≡◌, refl, some}
use axhost.Common.Hresult.{s_ok}
use axhost.Com.Table.{objects, no_objects}
use axhost.Runtime.{Runtime, start, standalone}
use axhost.Container.{
  Parts, parts_if, make_parts, unknown, other, of_control, Widget, Container, answers,
  create_instance, release, add_server_reference_if, release_server_reference_if, construct,
  add_ref, query_interface,
}
use axhost.Container.Creating.{made, create_instance-query_interface}

-- Class 7 loads; its control answers the interface 1 with the pointer 50.
abbrev pub widget : Widget
widget = record {
  World = ℕ;
  set_control = λ clsid ctx w. (w + 1, clsid == 7);
  query_interface = λ iid w. (w, s_ok, 50);
}

abbrev pub runtime : Runtime objects
runtime = start objects no_objects

-- The control answers every interface.
abbrev pub parts : Parts
parts = record { class_info = 50; class_info2 = 50; connection_points = 50; external = 50 }

abbrev pub living : Container
living = record {
  class_id = 7;
  class_context = 1;
  ref = 1;
  initialized = true;
  parts = some parts;
  deleted = false;
}

create_instance-query_interface_example :
    made objects standalone widget (other 1) 7 1 (some runtime) 0 ≡ (
      s_ok,
      of_control 50,
      some (record {
        class_id = 7;
        class_context = 1;
        ref = 0;
        initialized = true;
        parts = some parts;
        deleted = true;
      }),
      release_server_reference_if objects standalone widget
          (add_server_reference_if objects standalone widget (some runtime)),
      1,
    )
unfolding answers parts_if make_parts
create_instance-query_interface_example =
    create_instance-query_interface objects standalone widget (other 1) 7 1 (some runtime) 0 refl
      refl

created :
    (create_instance objects standalone widget false true unknown 7 1 (some runtime) 0).2
    ≡ some living
unfolding create_instance construct add_ref release query_interface answers parts_if make_parts
created = refl
