-- ===== src/Lnc/Ending.antt =====
-- lnc_link_client.cpp: when the loop of CcCore_LncRecvMessage ends.
use embedded_project_pc.Common.{ℕ, List}
use embedded_project_pc.Protocol.Tlv.{Tlv}
use embedded_project_pc.Protocol.Tlv.Stall.{NoStall}

-- A payload, and the bytes behind it, without that length.
abbrev BothQuiet : List ℕ × List ℕ → Type 0
BothQuiet (payload, rest) = NoStall payload × NoStall rest
