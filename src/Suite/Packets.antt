-- ===== src/Suite/Packets.antt =====
-- The sample packets of src/graspsamples.rs.
use rooster.Base.{ℕ, List, [], ◌∷◌}

abbrev pub packet_000 : List ℕ
packet_000 =
    0x33 ∷ 0x33 ∷ 0x00 ∷ 0x00 ∷ 0x00 ∷ 0x13 ∷ 0x52 ∷ 0x54 ∷ 0x00 ∷ 0x99 ∷ 0x9a ∷ 0xba ∷ 0x86 ∷ 0xdd
    ∷ 0x60 ∷ 0x0b ∷ 0x9f ∷ 0x82 ∷ 0x00 ∷ 0x5a ∷ 0x11 ∷ 0x01 ∷ 0xfe ∷ 0x80 ∷ 0x00 ∷ 0x00 ∷ 0x00
    ∷ 0x00 ∷ 0x00 ∷ 0x00 ∷ 0x50 ∷ 0x54 ∷ 0x00 ∷ 0xff ∷ 0xfe ∷ 0x99 ∷ 0x9a ∷ 0xba ∷ 0xff ∷ 0x02
    ∷ 0x00 ∷ 0x00 ∷ 0x00 ∷ 0x00 ∷ 0x00 ∷ 0x00 ∷ 0x00 ∷ 0x00 ∷ 0x00 ∷ 0x00 ∷ 0x00 ∷ 0x00 ∷ 0x00
    ∷ 0x13 ∷ 0xe6 ∷ 0x7c ∷ 0x1b ∷ 0x69 ∷ 0x00 ∷ 0x5a ∷ 0xff ∷ 0x19 ∷ 0x85 ∷ 0x09 ∷ 0x1a ∷ 0xd6
    ∷ 0x17 ∷ 0x85 ∷ 0xad ∷ 0x50 ∷ 0x26 ∷ 0x07 ∷ 0xf0 ∷ 0xb0 ∷ 0x00 ∷ 0x0f ∷ 0x00 ∷ 0x02 ∷ 0x00
    ∷ 0x00 ∷ 0x00 ∷ 0x00 ∷ 0x00 ∷ 0x00 ∷ 0x05 ∷ 0xf7 ∷ 0x1a ∷ 0x00 ∷ 0x01 ∷ 0xd4 ∷ 0xc0 ∷ 0x82
    ∷ 0x84 ∷ 0x71 ∷ 0x41 ∷ 0x4e ∷ 0x5f ∷ 0x6a ∷ 0x6f ∷ 0x69 ∷ 0x6e ∷ 0x5f ∷ 0x72 ∷ 0x65 ∷ 0x67
    ∷ 0x69 ∷ 0x73 ∷ 0x74 ∷ 0x72 ∷ 0x61 ∷ 0x72 ∷ 0x05 ∷ 0x01 ∷ 0x67 ∷ 0x45 ∷ 0x53 ∷ 0x54 ∷ 0x2d
    ∷ 0x54 ∷ 0x4c ∷ 0x53 ∷ 0x84 ∷ 0x18 ∷ 0x67 ∷ 0x50 ∷ 0x26 ∷ 0x07 ∷ 0xf0 ∷ 0xb0 ∷ 0x00 ∷ 0x0f
    ∷ 0x00 ∷ 0x02 ∷ 0x00 ∷ 0x00 ∷ 0x00 ∷ 0x00 ∷ 0x00 ∷ 0x00 ∷ 0x05 ∷ 0xf7 ∷ 0x06 ∷ 0x18 ∷ 0x50 ∷ []

abbrev pub packet_s01 : List ℕ
packet_s01 =
    0x85 ∷ 0x09 ∷ 0x0E ∷ 0x50 ∷ 0xFE ∷ 0x80 ∷ 0x00 ∷ 0x00 ∷ 0x00 ∷ 0x00 ∷ 0x00 ∷ 0x00 ∷ 0x00 ∷ 0x00
    ∷ 0x00 ∷ 0x00 ∷ 0x00 ∷ 0x00 ∷ 0x11 ∷ 0x22 ∷ 0x01 ∷ 0x82 ∷ 0x84 ∷ 0x66 ∷ 0x41 ∷ 0x4E ∷ 0x5F
    ∷ 0x41 ∷ 0x43 ∷ 0x50 ∷ 0x04 ∷ 0x01 ∷ 0x65 ∷ 0x49 ∷ 0x4B ∷ 0x45 ∷ 0x76 ∷ 0x32 ∷ 0x84 ∷ 0x18
    ∷ 0x67 ∷ 0x50 ∷ 0xFE ∷ 0x80 ∷ 0x00 ∷ 0x00 ∷ 0x00 ∷ 0x00 ∷ 0x00 ∷ 0x00 ∷ 0x00 ∷ 0x00 ∷ 0x00
    ∷ 0x00 ∷ 0x00 ∷ 0x00 ∷ 0x11 ∷ 0x22 ∷ 0x11 ∷ 0x19 ∷ 0x01 ∷ 0xF4 ∷ []

abbrev pub packet_s02 : List ℕ
packet_s02 = 0x81 ∷ 0x00 ∷ []

abbrev pub packet_420 : List ℕ
packet_420 =
    0x33 ∷ 0x33 ∷ 0x00 ∷ 0x00 ∷ 0x00 ∷ 0x13 ∷ 0x52 ∷ 0x54 ∷ 0x00 ∷ 0x99 ∷ 0x9a ∷ 0xba ∷ 0x86 ∷ 0xdd
    ∷ 0x60 ∷ 0x0b ∷ 0x9f ∷ 0x82 ∷ 0x00 ∷ 0x5a ∷ 0x11 ∷ 0x01 ∷ 0xfe ∷ 0x80 ∷ 0x00 ∷ 0x00 ∷ 0x00
    ∷ 0x00 ∷ 0x00 ∷ 0x00 ∷ 0x50 ∷ 0x54 ∷ 0x00 ∷ 0xff ∷ 0xfe ∷ 0x99 ∷ 0x9a ∷ 0xba ∷ 0xff ∷ 0x02
    ∷ 0x00 ∷ 0x00 ∷ 0x00 ∷ 0x00 ∷ 0x00 ∷ 0x00 ∷ 0x00 ∷ 0x00 ∷ 0x00 ∷ 0x00 ∷ 0x00 ∷ 0x00 ∷ 0x00
    ∷ 0x13 ∷ 0xe6 ∷ 0x7c ∷ 0x1b ∷ 0x69 ∷ 0x00 ∷ 0x5a ∷ 0x08 ∷ 0x28 ∷ 0x85 ∷ 0x09 ∷ 0x1a ∷ 0xc2
    ∷ 0x52 ∷ 0x8b ∷ 0x69 ∷ 0x50 ∷ 0x26 ∷ 0x07 ∷ 0xf0 ∷ 0xb0 ∷ 0x00 ∷ 0x0f ∷ 0x00 ∷ 0x02 ∷ 0x00
    ∷ 0x00 ∷ 0x00 ∷ 0x00 ∷ 0x00 ∷ 0x00 ∷ 0x05 ∷ 0xf7 ∷ 0x1a ∷ 0x00 ∷ 0x01 ∷ 0xd4 ∷ 0xc0 ∷ 0x82
    ∷ 0x84 ∷ 0x71 ∷ 0x41 ∷ 0x4e ∷ 0x5f ∷ 0x6a ∷ 0x6f ∷ 0x69 ∷ 0x6e ∷ 0x5f ∷ 0x72 ∷ 0x65 ∷ 0x67
    ∷ 0x69 ∷ 0x73 ∷ 0x74 ∷ 0x72 ∷ 0x61 ∷ 0x72 ∷ 0x05 ∷ 0x01 ∷ 0x67 ∷ 0x45 ∷ 0x53 ∷ 0x54 ∷ 0x2d
    ∷ 0x54 ∷ 0x4c ∷ 0x53 ∷ 0x84 ∷ 0x18 ∷ 0x67 ∷ 0x50 ∷ 0x26 ∷ 0x07 ∷ 0xf0 ∷ 0xb0 ∷ 0x00 ∷ 0x0f
    ∷ 0x00 ∷ 0x02 ∷ 0x00 ∷ 0x00 ∷ 0x00 ∷ 0x00 ∷ 0x00 ∷ 0x00 ∷ 0x05 ∷ 0xf7 ∷ 0x06 ∷ 0x18 ∷ 0x50 ∷ []
