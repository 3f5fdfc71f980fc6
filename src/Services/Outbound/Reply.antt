-- ===== src/Services/Outbound/Reply.antt =====
-- What a reply to a CPDLC message sends.
use acars_printer.Prelude.{ℕ, ◌≡◌, Option, some}
use acars_printer.Text.{codes, upper, strip, Text}
use acars_printer.Hoppie.Cpdlc.{CpdlcPacket}
use acars_printer.Models.Messages.{Outbound}
use acars_printer.Services.Outbound.{Office}

-- The forms and the settings are the same.
record IsQuiet (o o' : Office) : Type 0 where
  forms : o'.posted ≡ o.posted
  settled : o'.settings ≡ o.settings

-- The packet of an allowed reply.
abbrev reply_packet : ℕ → Option ℕ → Text → CpdlcPacket
reply_packet n uplink reply = record {
  min = some n;
  mrn = uplink;
  ra = codes "N";
  text = upper (strip reply);
}
