-- ===== src/Routed/Transit/Tests.antt =====
-- The check of a received frame in internal/routed/frame.go at a concrete input.
use bpc.Base.{codes, ok, ◌≡◌, ◌↔◌}
use bpc.Base.InsertionSort.{insertion_sorter}
use bpc.Routed.Samples.{site_path, site_config, arriving}
use bpc.Routed.Transit.{validate_frame_for_node}
use bpc.Routed.Transit.Approval.{Approved, validate_frame_iff}

validate_frame_iff_example :
    (validate_frame_for_node insertion_sorter arriving (codes "n2") (codes "n1") site_config
      ≡ ok site_path)
    ↔ Approved insertion_sorter site_config arriving (codes "n2") (codes "n1") site_path
validate_frame_iff_example =
    validate_frame_iff insertion_sorter arriving (codes "n2") (codes "n1") site_config site_path
