-- ===== src/Descriptors/Lookups.antt =====
-- The registry of kinds: its lookups by kind and by plural.
use a5e.Base.{◌≡◌, refl, some, string_eq, In, All, All-In}
use a5e.Base.Result.{ok}
use a5e.Descriptors.{Descriptor, resource_descriptors, descriptor_by_kind, descriptor_for_plural}

abbrev RoundTrips : Descriptor → Type 0
RoundTrips d = (descriptor_by_kind d.kind ≡ some d) × (descriptor_for_plural d.plural ≡ ok d)

all_round_trip : All RoundTrips resource_descriptors
unfolding descriptor_by_kind descriptor_for_plural
all_round_trip = (
  (refl, refl),
  (
    (refl, refl),
    (
      (refl, refl),
      (
        (refl, refl),
        (
          (refl, refl),
          (
            (refl, refl),
            (
              (refl, refl),
              (
                (refl, refl),
                ((refl, refl), ((refl, refl), ((refl, refl), ((refl, refl), ((refl, refl), tt))))),
              ),
            ),
          ),
        ),
      ),
    ),
  ),
)

-- Every descriptor of the registry is what a lookup by its kind returns, and what a lookup by its
-- plural returns.
pub descriptor_by_kind-for_plural :
    (d : Descriptor)
    → In d resource_descriptors
    → (descriptor_by_kind d.kind ≡ some d) × (descriptor_for_plural d.plural ≡ ok d)
descriptor_by_kind-for_plural d = All-In RoundTrips resource_descriptors all_round_trip d
