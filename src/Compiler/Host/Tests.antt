-- ===== src/Compiler/Host/Tests.antt =====
-- Probes and what they find together.
use caml.Base.{◌≡◌, ◌↔◌, refl, true, [], ◌∷◌, some, ok, err}
use caml.Compiler.Host.Composite.{IsLeastReport, composite_probe-IsLeastReport}
use caml.Compiler.Host.Merge.{Le, IsJoin, Le-refl, merge-IsJoin, merge_clash}
use caml.Compiler.Host.{
  pi4, pi5, HostCapabilities, no_capabilities, disagreement, merge, static_probe, merge_probes,
  CompositeCapabilityProbe, composite_probe,
}
use caml.Frontend.{raspberry_pi5}

abbrev camera : HostCapabilities
camera = record no_capabilities { libcamera_available = true; pi_model = some pi5 }

abbrev codec : HostCapabilities
codec = record no_capabilities { ffmpeg_available = true }

abbrev old : HostCapabilities
old = record no_capabilities { pi_model = some pi4 }

abbrev both : HostCapabilities
both = record camera { ffmpeg_available = true }

abbrev probes : CompositeCapabilityProbe
probes = record { probes = static_probe camera ∷ static_probe codec ∷ [] }

composite : composite_probe probes raspberry_pi5 ≡ ok both
unfolding composite_probe merge_probes merge static_probe
composite = refl

merges : merge camera codec ≡ ok both
unfolding merge
merges = refl

clashes : merge camera old ≡ err (disagreement pi5 pi4)
unfolding merge
clashes = refl

merge-IsJoin_example : IsJoin camera codec both
merge-IsJoin_example = merge-IsJoin camera codec both merges

merge_clash_example : ¬ Le old camera
merge_clash_example = merge_clash camera old clashes camera (Le-refl camera)

composite_probe-IsLeastReport_example :
    (composite_probe probes raspberry_pi5 ≡ ok both)
    ↔ IsLeastReport raspberry_pi5 no_capabilities probes.probes both
composite_probe-IsLeastReport_example = composite_probe-IsLeastReport probes raspberry_pi5 both
