-- ===== src/Container/Methods.antt =====
-- The methods of HostContainer, src/container.cc, that hand a call to one of its parts.
use axhost.Common.{ℕ, Bool, not, ◌==◌, if◌then◌else◌, Option, none, some}
use axhost.Common.Hresult.{e_pointer, e_unexpected}
use axhost.Com.{Pointer}
use axhost.Container.{Parts, Container}
use axhost.TypeInfo.{TypeSource}
use axhost.TypeInfo
use axhost.Points.{PointSource, Proxies}
use axhost.Points
use axhost.Unknown.{External}
use axhost.Unknown

-- What the control's IProvideClassInfo and IProvideClassInfo2 answer.
pub record ClassInfo : Type 0 where
  pub get_class_info : Pointer → ℕ × Pointer
  pub get_guid : Pointer → ℕ → ℕ × ℕ

-- An arrow of a smart pointer to a part: none, if the pointer is null.
unfoldable pub with_part {ℓ} : {A : Type ℓ} → Option Parts → (Parts → A) → Option A
with_part none call = none
with_part (some parts) call = some (call parts)

-- An answer of the control, if it has the interface.
unfoldable pub underlying {ℓ} : {A : Type ℓ} → Pointer → A → Option A
underlying p answer = if p == 0 then none else some answer

module _ (source : TypeSource) (control : ClassInfo) where
  -- GetClassInfo and GetGUID.
  unfoldable pub get_class_info : Bool → Container → Option (Option (ℕ × Pointer))
  get_class_info wanted c = with_part c.parts (λ p.
      TypeInfo.get_class_info source (underlying p.class_info (control.get_class_info p.class_info))
        wanted c.class_id)

  unfoldable pub get_guid : Bool → ℕ → Container → Option (Option (ℕ × ℕ))
  get_guid wanted kind c = with_part c.parts (λ p.
      TypeInfo.get_guid source (underlying p.class_info (control.get_class_info p.class_info))
        (underlying p.class_info2 (control.get_guid p.class_info2 kind)) wanted c.class_id kind)

module _ (source : PointSource) where
  -- EnumConnectionPoints and FindConnectionPoint, also of a control without connection points.
  unfoldable pub enum_connection_points :
      Bool → Container → source.World → Option (source.World × ℕ × Pointer)
  enum_connection_points wanted c w = with_part c.parts (λ p.
      if p.connection_points == 0
      then (w, (if not wanted then e_pointer else e_unexpected), 0)
      else Points.enum_connection_points source wanted w)

  unfoldable pub find_connection_point :
      Bool → ℕ → Container → Proxies × source.World → Option (ℕ × Pointer × Proxies × source.World)
  find_connection_point wanted riid c state = with_part c.parts (λ p.
      if p.connection_points == 0
      then ((if not wanted then e_pointer else e_unexpected), 0, state.0, state.1)
      else Points.find_connection_point source wanted riid state)

module _ (ext : External) where
  -- AddConnection and ReleaseConnection.
  unfoldable pub add_connection : ℕ → ℕ → Container → ℕ × ext.World → Option (ℕ × ℕ × ext.World)
  add_connection extconn reserved c state =
      with_part c.parts
        (λ p. Unknown.add_connection ext (not (p.external == 0)) extconn reserved state)

  unfoldable pub release_connection :
      ℕ → ℕ → Bool → Container → ℕ × ext.World → Option (ℕ × ℕ × ext.World)
  release_connection extconn reserved last_release_closes c state = with_part c.parts (λ p.
      Unknown.release_connection ext (not (p.external == 0)) extconn reserved last_release_closes
        state)
