-- ===== src/Analyzer/PcapReader/Collected.antt =====
-- All packets that the iterator over a pcapng file gives.
use eo_ip_rs.Base.{
  length, Result, ok, err, panic, Text, ℕ, zero, suc, ◌<◌, ◌≡◌, refl, ap, List, [], ◌∷◌, arith,
}
use eo_ip_rs.Analyzer.Error.{pcap_parse}
use eo_ip_rs.Analyzer.PcapReader.{
  DataLink, Block, interface_description, enhanced_packet, simple_packet, other_block, Packet,
  pcap_ng, raw_packet, ng_loop, next, collect,
}

module _ (show_link : DataLink → Text) where
  -- Block by block, with the link type of the interface described last.
  pub by_blocks : DataLink → List (Result Block Text) → List Packet
  unfolding raw_packet
  by_blocks link_type [] = []
  by_blocks link_type (ok (interface_description own) ∷ rest) = by_blocks own rest
  by_blocks link_type (ok (enhanced_packet id ts bytes) ∷ rest) =
      raw_packet show_link ts link_type bytes ∷ by_blocks link_type rest
  by_blocks link_type (ok (simple_packet bytes) ∷ rest) =
      raw_packet show_link 0 link_type bytes ∷ by_blocks link_type rest
  by_blocks link_type (ok other_block ∷ rest) = by_blocks link_type rest
  by_blocks link_type (err e ∷ rest) = err (pcap_parse e) ∷ by_blocks link_type rest
  by_blocks link_type (panic ∷ rest) = panic ∷ by_blocks link_type rest

  -- With a number of rounds above that of the blocks, the loop over a pcapng file gives for each block
  -- with a packet, and each error, one result, in order, and ends.
  pub collect-by_blocks :
      (n : ℕ) (link_type : DataLink) (blocks : List (Result Block Text))
      → length blocks < n
      → collect show_link n (pcap_ng (record { reader = blocks; link_type = link_type }))
        ≡ by_blocks link_type blocks
  unfolding collect next ng_loop by_blocks
  collect-by_blocks zero link_type blocks h = absurd (omega arith)
  collect-by_blocks (suc n) link_type [] h = refl
  collect-by_blocks (suc n) link_type (ok (interface_description own) ∷ rest) h =
      collect-by_blocks (suc n) own rest (omega arith)
  collect-by_blocks (suc n) link_type (ok (enhanced_packet id ts bytes) ∷ rest) h =
      ap (λ t. raw_packet show_link ts link_type bytes ∷ t)
        (collect-by_blocks n link_type rest (omega arith))
  collect-by_blocks (suc n) link_type (ok (simple_packet bytes) ∷ rest) h =
      ap (λ t. raw_packet show_link 0 link_type bytes ∷ t)
        (collect-by_blocks n link_type rest (omega arith))
  collect-by_blocks (suc n) link_type (ok other_block ∷ rest) h =
      collect-by_blocks (suc n) link_type rest (omega arith)
  collect-by_blocks (suc n) link_type (err e ∷ rest) h =
      ap (λ t. err (pcap_parse e) ∷ t) (collect-by_blocks n link_type rest (omega arith))
  collect-by_blocks (suc n) link_type (panic ∷ rest) h =
      ap (λ t. panic ∷ t) (collect-by_blocks n link_type rest (omega arith))
