-- ===== src/Fec/Golay/Matrix.antt =====
-- fec/golay_23_12.go: the table of corrections.
use go_dmr.Base.{ℕ, List, [], ◌∷◌}

abbrev pub golay_matrix : List ℕ
golay_matrix =
    0 ∷ 0 ∷ 0 ∷ 0 ∷ 0 ∷ 0 ∷ 0 ∷ 0 ∷ 0 ∷ 0 ∷ 0 ∷ 0 ∷ 0 ∷ 0 ∷ 0 ∷ 0x48 ∷ 0 ∷ 0 ∷ 0 ∷ 0 ∷ 0 ∷ 0 ∷ 0
    ∷ 0x824 ∷ 0 ∷ 0 ∷ 0 ∷ 0x301 ∷ 0 ∷ 0x400 ∷ 0x90 ∷ 0x2 ∷ 0 ∷ 0 ∷ 0 ∷ 0 ∷ 0 ∷ 0 ∷ 0 ∷ 0x48 ∷ 0 ∷ 0
    ∷ 0 ∷ 0x48 ∷ 0 ∷ 0x48 ∷ 0x48 ∷ 0x48 ∷ 0 ∷ 0 ∷ 0 ∷ 0x10 ∷ 0 ∷ 0x1 ∷ 0x602 ∷ 0x180 ∷ 0 ∷ 0x86
    ∷ 0x800 ∷ 0x420 ∷ 0x120 ∷ 0xa10 ∷ 0x5 ∷ 0x48 ∷ 0 ∷ 0 ∷ 0 ∷ 0 ∷ 0 ∷ 0 ∷ 0 ∷ 0x500 ∷ 0 ∷ 0 ∷ 0
    ∷ 0x4 ∷ 0 ∷ 0x222 ∷ 0x90 ∷ 0x801 ∷ 0 ∷ 0 ∷ 0 ∷ 0x42 ∷ 0 ∷ 0x1 ∷ 0x90 ∷ 0x208 ∷ 0 ∷ 0x808 ∷ 0x90
    ∷ 0x420 ∷ 0x90 ∷ 0x144 ∷ 0x90 ∷ 0x90 ∷ 0 ∷ 0 ∷ 0 ∷ 0xa80 ∷ 0 ∷ 0x1 ∷ 0x20 ∷ 0x16 ∷ 0 ∷ 0x110
    ∷ 0x3 ∷ 0x420 ∷ 0xc04 ∷ 0x80 ∷ 0x300 ∷ 0x48 ∷ 0 ∷ 0x1 ∷ 0x10c ∷ 0x420 ∷ 0x1 ∷ 0x1 ∷ 0x840 ∷ 0x1
    ∷ 0x240 ∷ 0x420 ∷ 0x420 ∷ 0x420 ∷ 0xa ∷ 0x1 ∷ 0x90 ∷ 0x420 ∷ 0 ∷ 0 ∷ 0 ∷ 0 ∷ 0 ∷ 0 ∷ 0 ∷ 0x500
    ∷ 0 ∷ 0 ∷ 0 ∷ 0xa0 ∷ 0 ∷ 0x15 ∷ 0xa00 ∷ 0x2 ∷ 0 ∷ 0 ∷ 0 ∷ 0x10 ∷ 0 ∷ 0x2c0 ∷ 0x9 ∷ 0x2 ∷ 0
    ∷ 0x808 ∷ 0x444 ∷ 0x2 ∷ 0x120 ∷ 0x2 ∷ 0x2 ∷ 0x2 ∷ 0 ∷ 0 ∷ 0 ∷ 0x10 ∷ 0 ∷ 0x802 ∷ 0x84 ∷ 0x221
    ∷ 0 ∷ 0x600 ∷ 0x3 ∷ 0x904 ∷ 0x120 ∷ 0x80 ∷ 0x410 ∷ 0x48 ∷ 0 ∷ 0x10 ∷ 0x10 ∷ 0x10 ∷ 0x120 ∷ 0x40c
    ∷ 0x840 ∷ 0x10 ∷ 0x120 ∷ 0x41 ∷ 0x288 ∷ 0x10 ∷ 0x120 ∷ 0x120 ∷ 0x120 ∷ 0x2 ∷ 0 ∷ 0 ∷ 0 ∷ 0x500
    ∷ 0 ∷ 0x500 ∷ 0x500 ∷ 0x500 ∷ 0 ∷ 0x808 ∷ 0x3 ∷ 0x250 ∷ 0x40 ∷ 0x80 ∷ 0x2c ∷ 0x500 ∷ 0 ∷ 0x808
    ∷ 0x220 ∷ 0x85 ∷ 0x6 ∷ 0x30 ∷ 0x840 ∷ 0x500 ∷ 0x808 ∷ 0x808 ∷ 0x100 ∷ 0x808 ∷ 0x601 ∷ 0x808
    ∷ 0x90 ∷ 0x2 ∷ 0 ∷ 0x64 ∷ 0x3 ∷ 0x8 ∷ 0x218 ∷ 0x80 ∷ 0x840 ∷ 0x500 ∷ 0x3 ∷ 0x80 ∷ 0x3 ∷ 0x3
    ∷ 0x80 ∷ 0x80 ∷ 0x3 ∷ 0x80 ∷ 0x480 ∷ 0x302 ∷ 0x840 ∷ 0x10 ∷ 0x840 ∷ 0x1 ∷ 0x840 ∷ 0x840 ∷ 0x14
    ∷ 0x808 ∷ 0x3 ∷ 0x420 ∷ 0x120 ∷ 0x80 ∷ 0x840 ∷ 0x204 ∷ 0 ∷ 0 ∷ 0 ∷ 0 ∷ 0 ∷ 0 ∷ 0 ∷ 0x83 ∷ 0 ∷ 0
    ∷ 0 ∷ 0x4 ∷ 0 ∷ 0x400 ∷ 0xa00 ∷ 0x130 ∷ 0 ∷ 0 ∷ 0 ∷ 0x10 ∷ 0 ∷ 0x400 ∷ 0x140 ∷ 0x208 ∷ 0 ∷ 0x400
    ∷ 0x2a ∷ 0x8c0 ∷ 0x400 ∷ 0x400 ∷ 0x5 ∷ 0x400 ∷ 0 ∷ 0 ∷ 0 ∷ 0x10 ∷ 0 ∷ 0x304 ∷ 0x20 ∷ 0xc00 ∷ 0
    ∷ 0x821 ∷ 0x580 ∷ 0x202 ∷ 0x12 ∷ 0x80 ∷ 0x5 ∷ 0x48 ∷ 0 ∷ 0x10 ∷ 0x10 ∷ 0x10 ∷ 0x888 ∷ 0x62 ∷ 0x5
    ∷ 0x10 ∷ 0x240 ∷ 0x108 ∷ 0x5 ∷ 0x10 ∷ 0x5 ∷ 0x400 ∷ 0x5 ∷ 0x5 ∷ 0 ∷ 0 ∷ 0 ∷ 0x4 ∷ 0 ∷ 0x850
    ∷ 0x20 ∷ 0x208 ∷ 0 ∷ 0x4 ∷ 0x4 ∷ 0x4 ∷ 0x109 ∷ 0x80 ∷ 0x442 ∷ 0x4 ∷ 0 ∷ 0x1a0 ∷ 0xc01 ∷ 0x208
    ∷ 0x6 ∷ 0x208 ∷ 0x208 ∷ 0x208 ∷ 0x240 ∷ 0x13 ∷ 0x100 ∷ 0x4 ∷ 0x820 ∷ 0x400 ∷ 0x90 ∷ 0x208 ∷ 0
    ∷ 0x40a ∷ 0x20 ∷ 0x141 ∷ 0x20 ∷ 0x80 ∷ 0x20 ∷ 0x20 ∷ 0x240 ∷ 0x80 ∷ 0x818 ∷ 0x4 ∷ 0x80 ∷ 0x80
    ∷ 0x20 ∷ 0x80 ∷ 0x240 ∷ 0x804 ∷ 0x82 ∷ 0x10 ∷ 0x510 ∷ 0x1 ∷ 0x20 ∷ 0x208 ∷ 0x240 ∷ 0x240 ∷ 0x240
    ∷ 0x420 ∷ 0x240 ∷ 0x80 ∷ 0x5 ∷ 0x902 ∷ 0 ∷ 0 ∷ 0 ∷ 0x10 ∷ 0 ∷ 0x28 ∷ 0xa00 ∷ 0x44 ∷ 0 ∷ 0x142
    ∷ 0xa00 ∷ 0x409 ∷ 0xa00 ∷ 0x80 ∷ 0xa00 ∷ 0xa00 ∷ 0 ∷ 0x10 ∷ 0x10 ∷ 0x10 ∷ 0x6 ∷ 0x901 ∷ 0x4a0
    ∷ 0x10 ∷ 0x81 ∷ 0x224 ∷ 0x100 ∷ 0x10 ∷ 0x58 ∷ 0x400 ∷ 0xa00 ∷ 0x2 ∷ 0 ∷ 0x10 ∷ 0x10 ∷ 0x10
    ∷ 0x441 ∷ 0x80 ∷ 0x10a ∷ 0x10 ∷ 0xc ∷ 0x80 ∷ 0x60 ∷ 0x10 ∷ 0x80 ∷ 0x80 ∷ 0xa00 ∷ 0x80 ∷ 0x10
    ∷ 0x10 ∷ 0x10 ∷ 0x10 ∷ 0x200 ∷ 0x10 ∷ 0x10 ∷ 0x10 ∷ 0xc02 ∷ 0x10 ∷ 0x10 ∷ 0x10 ∷ 0x120 ∷ 0x80
    ∷ 0x5 ∷ 0x10 ∷ 0 ∷ 0x201 ∷ 0xc8 ∷ 0x822 ∷ 0x6 ∷ 0x80 ∷ 0x11 ∷ 0x500 ∷ 0x430 ∷ 0x80 ∷ 0x100 ∷ 0x4
    ∷ 0x80 ∷ 0x80 ∷ 0xa00 ∷ 0x80 ∷ 0x6 ∷ 0x440 ∷ 0x100 ∷ 0x10 ∷ 0x6 ∷ 0x6 ∷ 0x6 ∷ 0x208 ∷ 0x100
    ∷ 0x808 ∷ 0x100 ∷ 0x100 ∷ 0x6 ∷ 0x80 ∷ 0x100 ∷ 0x61 ∷ 0x900 ∷ 0x80 ∷ 0x604 ∷ 0x10 ∷ 0x80 ∷ 0x80
    ∷ 0x20 ∷ 0x80 ∷ 0x80 ∷ 0x80 ∷ 0x3 ∷ 0x80 ∷ 0x80 ∷ 0x80 ∷ 0x80 ∷ 0x80 ∷ 0x29 ∷ 0x10 ∷ 0x10 ∷ 0x10
    ∷ 0x6 ∷ 0x80 ∷ 0x840 ∷ 0x10 ∷ 0x240 ∷ 0x80 ∷ 0x100 ∷ 0x10 ∷ 0x80 ∷ 0x80 ∷ 0x408 ∷ 0x80 ∷ 0 ∷ 0
    ∷ 0 ∷ 0 ∷ 0 ∷ 0 ∷ 0 ∷ 0x210 ∷ 0 ∷ 0 ∷ 0 ∷ 0xa0 ∷ 0 ∷ 0x400 ∷ 0x106 ∷ 0x801 ∷ 0 ∷ 0 ∷ 0 ∷ 0x42
    ∷ 0 ∷ 0x400 ∷ 0x9 ∷ 0x180 ∷ 0 ∷ 0x400 ∷ 0x800 ∷ 0x1c ∷ 0x400 ∷ 0x400 ∷ 0x260 ∷ 0x400 ∷ 0 ∷ 0 ∷ 0
    ∷ 0x405 ∷ 0 ∷ 0x802 ∷ 0x20 ∷ 0x180 ∷ 0 ∷ 0x110 ∷ 0x800 ∷ 0x202 ∷ 0x281 ∷ 0x24 ∷ 0x410 ∷ 0x48 ∷ 0
    ∷ 0x228 ∷ 0x800 ∷ 0x180 ∷ 0x54 ∷ 0x180 ∷ 0x180 ∷ 0x180 ∷ 0x800 ∷ 0x41 ∷ 0x800 ∷ 0x800 ∷ 0xa
    ∷ 0x400 ∷ 0x800 ∷ 0x180 ∷ 0 ∷ 0 ∷ 0 ∷ 0x42 ∷ 0 ∷ 0x8c ∷ 0x20 ∷ 0x801 ∷ 0 ∷ 0x110 ∷ 0x608 ∷ 0x801
    ∷ 0x40 ∷ 0x801 ∷ 0x801 ∷ 0x801 ∷ 0 ∷ 0x42 ∷ 0x42 ∷ 0x42 ∷ 0xb00 ∷ 0x30 ∷ 0x404 ∷ 0x42 ∷ 0x25
    ∷ 0x280 ∷ 0x100 ∷ 0x42 ∷ 0xa ∷ 0x400 ∷ 0x90 ∷ 0x801 ∷ 0 ∷ 0x110 ∷ 0x20 ∷ 0x8 ∷ 0x20 ∷ 0x640
    ∷ 0x20 ∷ 0x20 ∷ 0x110 ∷ 0x110 ∷ 0xc4 ∷ 0x110 ∷ 0xa ∷ 0x110 ∷ 0x20 ∷ 0x801 ∷ 0x480 ∷ 0x804
    ∷ 0x211 ∷ 0x42 ∷ 0xa ∷ 0x1 ∷ 0x20 ∷ 0x180 ∷ 0xa ∷ 0x110 ∷ 0x800 ∷ 0x420 ∷ 0xa ∷ 0xa ∷ 0xa
    ∷ 0x204 ∷ 0 ∷ 0 ∷ 0 ∷ 0xa0 ∷ 0 ∷ 0x802 ∷ 0x9 ∷ 0x44 ∷ 0 ∷ 0xa0 ∷ 0xa0 ∷ 0xa0 ∷ 0x40 ∷ 0x308
    ∷ 0x410 ∷ 0xa0 ∷ 0 ∷ 0x104 ∷ 0x9 ∷ 0xe00 ∷ 0x9 ∷ 0x30 ∷ 0x9 ∷ 0x9 ∷ 0x212 ∷ 0x41 ∷ 0x100 ∷ 0xa0
    ∷ 0x884 ∷ 0x400 ∷ 0x9 ∷ 0x2 ∷ 0 ∷ 0x802 ∷ 0x340 ∷ 0x8 ∷ 0x802 ∷ 0x802 ∷ 0x410 ∷ 0x802 ∷ 0xc
    ∷ 0x41 ∷ 0x410 ∷ 0xa0 ∷ 0x410 ∷ 0x802 ∷ 0x410 ∷ 0x410 ∷ 0x480 ∷ 0x41 ∷ 0x26 ∷ 0x10 ∷ 0x200
    ∷ 0x802 ∷ 0x9 ∷ 0x180 ∷ 0x41 ∷ 0x41 ∷ 0x800 ∷ 0x41 ∷ 0x120 ∷ 0x41 ∷ 0x410 ∷ 0x204 ∷ 0 ∷ 0x201
    ∷ 0x814 ∷ 0x8 ∷ 0x40 ∷ 0x30 ∷ 0x282 ∷ 0x500 ∷ 0x40 ∷ 0x406 ∷ 0x100 ∷ 0xa0 ∷ 0x40 ∷ 0x40 ∷ 0x40
    ∷ 0x801 ∷ 0x480 ∷ 0x30 ∷ 0x100 ∷ 0x42 ∷ 0x30 ∷ 0x30 ∷ 0x9 ∷ 0x30 ∷ 0x100 ∷ 0x808 ∷ 0x100 ∷ 0x100
    ∷ 0x40 ∷ 0x30 ∷ 0x100 ∷ 0x204 ∷ 0x480 ∷ 0x8 ∷ 0x8 ∷ 0x8 ∷ 0x105 ∷ 0x802 ∷ 0x20 ∷ 0x8 ∷ 0xa20
    ∷ 0x110 ∷ 0x3 ∷ 0x8 ∷ 0x40 ∷ 0x80 ∷ 0x410 ∷ 0x204 ∷ 0x480 ∷ 0x480 ∷ 0x480 ∷ 0x8 ∷ 0x480 ∷ 0x30
    ∷ 0x840 ∷ 0x204 ∷ 0x480 ∷ 0x41 ∷ 0x100 ∷ 0x204 ∷ 0xa ∷ 0x204 ∷ 0x204 ∷ 0x204 ∷ 0 ∷ 0 ∷ 0 ∷ 0x908
    ∷ 0 ∷ 0x400 ∷ 0x20 ∷ 0x44 ∷ 0 ∷ 0x400 ∷ 0x51 ∷ 0x202 ∷ 0x400 ∷ 0x400 ∷ 0x88 ∷ 0x400 ∷ 0 ∷ 0x400
    ∷ 0x284 ∷ 0x21 ∷ 0x400 ∷ 0x400 ∷ 0x812 ∷ 0x400 ∷ 0x400 ∷ 0x400 ∷ 0x100 ∷ 0x400 ∷ 0x400 ∷ 0x400
    ∷ 0x400 ∷ 0x400 ∷ 0 ∷ 0xc0 ∷ 0x20 ∷ 0x202 ∷ 0x20 ∷ 0x19 ∷ 0x20 ∷ 0x20 ∷ 0xc ∷ 0x202 ∷ 0x202
    ∷ 0x202 ∷ 0x940 ∷ 0x400 ∷ 0x20 ∷ 0x202 ∷ 0x103 ∷ 0x804 ∷ 0x448 ∷ 0x10 ∷ 0x200 ∷ 0x400 ∷ 0x20
    ∷ 0x180 ∷ 0xb0 ∷ 0x400 ∷ 0x800 ∷ 0x202 ∷ 0x400 ∷ 0x400 ∷ 0x5 ∷ 0x400 ∷ 0 ∷ 0x201 ∷ 0x20 ∷ 0x490
    ∷ 0x20 ∷ 0x102 ∷ 0x20 ∷ 0x20 ∷ 0x882 ∷ 0x68 ∷ 0x100 ∷ 0x4 ∷ 0x214 ∷ 0x400 ∷ 0x20 ∷ 0x801 ∷ 0x18
    ∷ 0x804 ∷ 0x100 ∷ 0x42 ∷ 0xc1 ∷ 0x400 ∷ 0x20 ∷ 0x208 ∷ 0x100 ∷ 0x400 ∷ 0x100 ∷ 0x100 ∷ 0x400
    ∷ 0x400 ∷ 0x100 ∷ 0x400 ∷ 0x20 ∷ 0x804 ∷ 0x20 ∷ 0x20 ∷ 0x20 ∷ 0x20 ∷ 0x20 ∷ 0x20 ∷ 0x401 ∷ 0x110
    ∷ 0x20 ∷ 0x202 ∷ 0x20 ∷ 0x80 ∷ 0x20 ∷ 0x20 ∷ 0x804 ∷ 0x804 ∷ 0x20 ∷ 0x804 ∷ 0x20 ∷ 0x804 ∷ 0x20
    ∷ 0x20 ∷ 0x240 ∷ 0x804 ∷ 0x100 ∷ 0x89 ∷ 0xa ∷ 0x400 ∷ 0x20 ∷ 0x50 ∷ 0 ∷ 0x201 ∷ 0x402 ∷ 0x44
    ∷ 0x190 ∷ 0x44 ∷ 0x44 ∷ 0x44 ∷ 0xc ∷ 0x810 ∷ 0x100 ∷ 0xa0 ∷ 0x23 ∷ 0x400 ∷ 0xa00 ∷ 0x44 ∷ 0x860
    ∷ 0x8a ∷ 0x100 ∷ 0x10 ∷ 0x200 ∷ 0x400 ∷ 0x9 ∷ 0x44 ∷ 0x100 ∷ 0x400 ∷ 0x100 ∷ 0x100 ∷ 0x400
    ∷ 0x400 ∷ 0x100 ∷ 0x400 ∷ 0xc ∷ 0x520 ∷ 0x881 ∷ 0x10 ∷ 0x200 ∷ 0x802 ∷ 0x20 ∷ 0x44 ∷ 0xc ∷ 0xc
    ∷ 0xc ∷ 0x202 ∷ 0xc ∷ 0x80 ∷ 0x410 ∷ 0x101 ∷ 0x200 ∷ 0x10 ∷ 0x10 ∷ 0x10 ∷ 0x200 ∷ 0x200 ∷ 0x200
    ∷ 0x10 ∷ 0xc ∷ 0x41 ∷ 0x100 ∷ 0x10 ∷ 0x200 ∷ 0x400 ∷ 0xc2 ∷ 0x828 ∷ 0x201 ∷ 0x201 ∷ 0x100
    ∷ 0x201 ∷ 0xc08 ∷ 0x201 ∷ 0x20 ∷ 0x44 ∷ 0x100 ∷ 0x201 ∷ 0x100 ∷ 0x100 ∷ 0x40 ∷ 0x80 ∷ 0x100
    ∷ 0x1a ∷ 0x100 ∷ 0x201 ∷ 0x100 ∷ 0x100 ∷ 0x6 ∷ 0x30 ∷ 0x100 ∷ 0x880 ∷ 0x100 ∷ 0x100 ∷ 0x100
    ∷ 0x100 ∷ 0x100 ∷ 0x400 ∷ 0x100 ∷ 0x100 ∷ 0x52 ∷ 0x201 ∷ 0x20 ∷ 0x8 ∷ 0x20 ∷ 0x80 ∷ 0x20 ∷ 0x20
    ∷ 0xc ∷ 0x80 ∷ 0x100 ∷ 0xc40 ∷ 0x80 ∷ 0x80 ∷ 0x20 ∷ 0x80 ∷ 0x480 ∷ 0x804 ∷ 0x100 ∷ 0x10 ∷ 0x200
    ∷ 0x148 ∷ 0x20 ∷ 0x403 ∷ 0x100 ∷ 0x22 ∷ 0x100 ∷ 0x100 ∷ 0x811 ∷ 0x80 ∷ 0x100 ∷ 0x204 ∷ 0 ∷ 0 ∷ 0
    ∷ 0 ∷ 0 ∷ 0 ∷ 0 ∷ 0x210 ∷ 0 ∷ 0 ∷ 0 ∷ 0x4 ∷ 0 ∷ 0x980 ∷ 0x421 ∷ 0x2 ∷ 0 ∷ 0 ∷ 0 ∷ 0x488 ∷ 0
    ∷ 0x1 ∷ 0x140 ∷ 0x2 ∷ 0 ∷ 0x70 ∷ 0x800 ∷ 0x2 ∷ 0x20c ∷ 0x2 ∷ 0x2 ∷ 0x2 ∷ 0 ∷ 0 ∷ 0 ∷ 0x122 ∷ 0
    ∷ 0x1 ∷ 0x84 ∷ 0xc00 ∷ 0 ∷ 0x600 ∷ 0x800 ∷ 0x91 ∷ 0x12 ∷ 0x24 ∷ 0x300 ∷ 0x48 ∷ 0 ∷ 0x1 ∷ 0x800
    ∷ 0x244 ∷ 0x1 ∷ 0x1 ∷ 0x38 ∷ 0x1 ∷ 0x800 ∷ 0x108 ∷ 0x800 ∷ 0x800 ∷ 0x4c0 ∷ 0x1 ∷ 0x800 ∷ 0x2 ∷ 0
    ∷ 0 ∷ 0 ∷ 0x4 ∷ 0 ∷ 0x1 ∷ 0x80a ∷ 0xe0 ∷ 0 ∷ 0x4 ∷ 0x4 ∷ 0x4 ∷ 0x40 ∷ 0x418 ∷ 0x300 ∷ 0x4 ∷ 0
    ∷ 0x1 ∷ 0x220 ∷ 0x910 ∷ 0x1 ∷ 0x1 ∷ 0x404 ∷ 0x1 ∷ 0x502 ∷ 0x280 ∷ 0x49 ∷ 0x4 ∷ 0x820 ∷ 0x1
    ∷ 0x90 ∷ 0x2 ∷ 0 ∷ 0x1 ∷ 0x450 ∷ 0x8 ∷ 0x1 ∷ 0x1 ∷ 0x300 ∷ 0x1 ∷ 0xa8 ∷ 0x842 ∷ 0x300 ∷ 0x4
    ∷ 0x300 ∷ 0x1 ∷ 0x300 ∷ 0x300 ∷ 0x1 ∷ 0x1 ∷ 0x82 ∷ 0x1 ∷ 0x1 ∷ 0x1 ∷ 0x1 ∷ 0x1 ∷ 0x14 ∷ 0x1
    ∷ 0x800 ∷ 0x420 ∷ 0x1 ∷ 0x1 ∷ 0x300 ∷ 0x1 ∷ 0 ∷ 0 ∷ 0 ∷ 0x841 ∷ 0 ∷ 0x28 ∷ 0x84 ∷ 0x2 ∷ 0
    ∷ 0x600 ∷ 0x118 ∷ 0x2 ∷ 0x40 ∷ 0x2 ∷ 0x2 ∷ 0x2 ∷ 0 ∷ 0x104 ∷ 0x220 ∷ 0x2 ∷ 0xc10 ∷ 0x2 ∷ 0x2
    ∷ 0x2 ∷ 0x81 ∷ 0x2 ∷ 0x2 ∷ 0x2 ∷ 0x2 ∷ 0x2 ∷ 0x2 ∷ 0x2 ∷ 0 ∷ 0x600 ∷ 0x84 ∷ 0x8 ∷ 0x84 ∷ 0x150
    ∷ 0x84 ∷ 0x84 ∷ 0x600 ∷ 0x600 ∷ 0x60 ∷ 0x600 ∷ 0x809 ∷ 0x600 ∷ 0x84 ∷ 0x2 ∷ 0x4a ∷ 0x8a0 ∷ 0x501
    ∷ 0x10 ∷ 0x200 ∷ 0x1 ∷ 0x84 ∷ 0x2 ∷ 0x14 ∷ 0x600 ∷ 0x800 ∷ 0x2 ∷ 0x120 ∷ 0x2 ∷ 0x2 ∷ 0x2 ∷ 0
    ∷ 0x92 ∷ 0x220 ∷ 0x8 ∷ 0x40 ∷ 0xa04 ∷ 0x11 ∷ 0x500 ∷ 0x40 ∷ 0x121 ∷ 0xc80 ∷ 0x4 ∷ 0x40 ∷ 0x40
    ∷ 0x40 ∷ 0x2 ∷ 0x220 ∷ 0x440 ∷ 0x220 ∷ 0x220 ∷ 0x188 ∷ 0x1 ∷ 0x220 ∷ 0x2 ∷ 0x14 ∷ 0x808 ∷ 0x220
    ∷ 0x2 ∷ 0x40 ∷ 0x2 ∷ 0x2 ∷ 0x2 ∷ 0x900 ∷ 0x8 ∷ 0x8 ∷ 0x8 ∷ 0x422 ∷ 0x1 ∷ 0x84 ∷ 0x8 ∷ 0x14
    ∷ 0x600 ∷ 0x3 ∷ 0x8 ∷ 0x40 ∷ 0x80 ∷ 0x300 ∷ 0x830 ∷ 0x14 ∷ 0x1 ∷ 0x220 ∷ 0x8 ∷ 0x1 ∷ 0x1 ∷ 0x840
    ∷ 0x1 ∷ 0x14 ∷ 0x14 ∷ 0x14 ∷ 0x1c0 ∷ 0x14 ∷ 0x1 ∷ 0x408 ∷ 0x2 ∷ 0 ∷ 0 ∷ 0 ∷ 0x4 ∷ 0 ∷ 0x28
    ∷ 0x140 ∷ 0xc00 ∷ 0 ∷ 0x4 ∷ 0x4 ∷ 0x4 ∷ 0x12 ∷ 0x241 ∷ 0x88 ∷ 0x4 ∷ 0 ∷ 0xa02 ∷ 0x140 ∷ 0x21
    ∷ 0x140 ∷ 0x94 ∷ 0x140 ∷ 0x140 ∷ 0x81 ∷ 0x108 ∷ 0x610 ∷ 0x4 ∷ 0x820 ∷ 0x400 ∷ 0x140 ∷ 0x2 ∷ 0
    ∷ 0xc0 ∷ 0x209 ∷ 0xc00 ∷ 0x12 ∷ 0xc00 ∷ 0xc00 ∷ 0xc00 ∷ 0x12 ∷ 0x108 ∷ 0x60 ∷ 0x4 ∷ 0x12 ∷ 0x12
    ∷ 0x12 ∷ 0xc00 ∷ 0x424 ∷ 0x108 ∷ 0x82 ∷ 0x10 ∷ 0x200 ∷ 0x1 ∷ 0x140 ∷ 0xc00 ∷ 0x108 ∷ 0x108
    ∷ 0x800 ∷ 0x108 ∷ 0x12 ∷ 0x108 ∷ 0x5 ∷ 0x2a0 ∷ 0 ∷ 0x4 ∷ 0x4 ∷ 0x4 ∷ 0x680 ∷ 0x102 ∷ 0x11 ∷ 0x4
    ∷ 0x4 ∷ 0x4 ∷ 0x4 ∷ 0x4 ∷ 0x820 ∷ 0x4 ∷ 0x4 ∷ 0x4 ∷ 0x18 ∷ 0x440 ∷ 0x82 ∷ 0x4 ∷ 0x820 ∷ 0x1
    ∷ 0x140 ∷ 0x208 ∷ 0x820 ∷ 0x4 ∷ 0x4 ∷ 0x4 ∷ 0x820 ∷ 0x820 ∷ 0x820 ∷ 0x4 ∷ 0x900 ∷ 0x230 ∷ 0x82
    ∷ 0x4 ∷ 0x4c ∷ 0x1 ∷ 0x20 ∷ 0xc00 ∷ 0x401 ∷ 0x4 ∷ 0x4 ∷ 0x4 ∷ 0x12 ∷ 0x80 ∷ 0x300 ∷ 0x4 ∷ 0x82
    ∷ 0x1 ∷ 0x82 ∷ 0x82 ∷ 0x1 ∷ 0x1 ∷ 0x82 ∷ 0x1 ∷ 0x240 ∷ 0x108 ∷ 0x82 ∷ 0x4 ∷ 0x820 ∷ 0x1 ∷ 0x408
    ∷ 0x50 ∷ 0 ∷ 0x28 ∷ 0x402 ∷ 0x380 ∷ 0x28 ∷ 0x28 ∷ 0x11 ∷ 0x28 ∷ 0x81 ∷ 0x810 ∷ 0x60 ∷ 0x4
    ∷ 0x504 ∷ 0x28 ∷ 0xa00 ∷ 0x2 ∷ 0x81 ∷ 0x440 ∷ 0x80c ∷ 0x10 ∷ 0x200 ∷ 0x28 ∷ 0x140 ∷ 0x2 ∷ 0x81
    ∷ 0x81 ∷ 0x81 ∷ 0x2 ∷ 0x81 ∷ 0x2 ∷ 0x2 ∷ 0x2 ∷ 0x900 ∷ 0x7 ∷ 0x60 ∷ 0x10 ∷ 0x200 ∷ 0x28 ∷ 0x84
    ∷ 0xc00 ∷ 0x60 ∷ 0x600 ∷ 0x60 ∷ 0x60 ∷ 0x12 ∷ 0x80 ∷ 0x60 ∷ 0x101 ∷ 0x200 ∷ 0x10 ∷ 0x10 ∷ 0x10
    ∷ 0x200 ∷ 0x200 ∷ 0x200 ∷ 0x10 ∷ 0x81 ∷ 0x108 ∷ 0x60 ∷ 0x10 ∷ 0x200 ∷ 0x844 ∷ 0x408 ∷ 0x2
    ∷ 0x900 ∷ 0x440 ∷ 0x11 ∷ 0x4 ∷ 0x11 ∷ 0x28 ∷ 0x11 ∷ 0x11 ∷ 0x20a ∷ 0x4 ∷ 0x4 ∷ 0x4 ∷ 0x40 ∷ 0x80
    ∷ 0x11 ∷ 0x4 ∷ 0x440 ∷ 0x440 ∷ 0x220 ∷ 0x440 ∷ 0x6 ∷ 0x440 ∷ 0x11 ∷ 0x880 ∷ 0x81 ∷ 0x440 ∷ 0x100
    ∷ 0x4 ∷ 0x820 ∷ 0x310 ∷ 0x408 ∷ 0x2 ∷ 0x900 ∷ 0x900 ∷ 0x900 ∷ 0x8 ∷ 0x900 ∷ 0x80 ∷ 0x11 ∷ 0x242
    ∷ 0x900 ∷ 0x80 ∷ 0x60 ∷ 0x4 ∷ 0x80 ∷ 0x80 ∷ 0x408 ∷ 0x80 ∷ 0x900 ∷ 0x440 ∷ 0x82 ∷ 0x10 ∷ 0x200
    ∷ 0x1 ∷ 0x408 ∷ 0x124 ∷ 0x14 ∷ 0x22 ∷ 0x408 ∷ 0xa01 ∷ 0x408 ∷ 0x80 ∷ 0x408 ∷ 0x408 ∷ 0 ∷ 0 ∷ 0
    ∷ 0x210 ∷ 0 ∷ 0x210 ∷ 0x210 ∷ 0x210 ∷ 0 ∷ 0xb ∷ 0x800 ∷ 0x540 ∷ 0x40 ∷ 0x24 ∷ 0x88 ∷ 0x210 ∷ 0
    ∷ 0x104 ∷ 0x800 ∷ 0x21 ∷ 0xa2 ∷ 0x848 ∷ 0x404 ∷ 0x210 ∷ 0x800 ∷ 0x280 ∷ 0x800 ∷ 0x800 ∷ 0x111
    ∷ 0x400 ∷ 0x800 ∷ 0x2 ∷ 0 ∷ 0xc0 ∷ 0x800 ∷ 0x8 ∷ 0x508 ∷ 0x24 ∷ 0x43 ∷ 0x210 ∷ 0x800 ∷ 0x24
    ∷ 0x800 ∷ 0x800 ∷ 0x24 ∷ 0x24 ∷ 0x800 ∷ 0x24 ∷ 0x800 ∷ 0x412 ∷ 0x800 ∷ 0x800 ∷ 0x200 ∷ 0x1
    ∷ 0x800 ∷ 0x180 ∷ 0x800 ∷ 0x800 ∷ 0x800 ∷ 0x800 ∷ 0x800 ∷ 0x24 ∷ 0x800 ∷ 0x800 ∷ 0 ∷ 0xc20
    ∷ 0x181 ∷ 0x8 ∷ 0x40 ∷ 0x102 ∷ 0x404 ∷ 0x210 ∷ 0x40 ∷ 0x280 ∷ 0x32 ∷ 0x4 ∷ 0x40 ∷ 0x40 ∷ 0x40
    ∷ 0x801 ∷ 0x18 ∷ 0x280 ∷ 0x404 ∷ 0x42 ∷ 0x404 ∷ 0x1 ∷ 0x404 ∷ 0x404 ∷ 0x280 ∷ 0x280 ∷ 0x800
    ∷ 0x280 ∷ 0x40 ∷ 0x280 ∷ 0x404 ∷ 0x128 ∷ 0x206 ∷ 0x8 ∷ 0x8 ∷ 0x8 ∷ 0x890 ∷ 0x1 ∷ 0x20 ∷ 0x8
    ∷ 0x401 ∷ 0x110 ∷ 0x800 ∷ 0x8 ∷ 0x40 ∷ 0x24 ∷ 0x300 ∷ 0x482 ∷ 0x160 ∷ 0x1 ∷ 0x800 ∷ 0x8 ∷ 0x1
    ∷ 0x1 ∷ 0x404 ∷ 0x1 ∷ 0x800 ∷ 0x280 ∷ 0x800 ∷ 0x800 ∷ 0xa ∷ 0x1 ∷ 0x800 ∷ 0x50 ∷ 0 ∷ 0x104
    ∷ 0x402 ∷ 0x8 ∷ 0x40 ∷ 0x481 ∷ 0x920 ∷ 0x210 ∷ 0x40 ∷ 0x810 ∷ 0x205 ∷ 0xa0 ∷ 0x40 ∷ 0x40 ∷ 0x40
    ∷ 0x2 ∷ 0x104 ∷ 0x104 ∷ 0xd0 ∷ 0x104 ∷ 0x200 ∷ 0x104 ∷ 0x9 ∷ 0x2 ∷ 0x428 ∷ 0x104 ∷ 0x800 ∷ 0x2
    ∷ 0x40 ∷ 0x2 ∷ 0x2 ∷ 0x2 ∷ 0x31 ∷ 0x8 ∷ 0x8 ∷ 0x8 ∷ 0x200 ∷ 0x802 ∷ 0x84 ∷ 0x8 ∷ 0x182 ∷ 0x600
    ∷ 0x800 ∷ 0x8 ∷ 0x40 ∷ 0x24 ∷ 0x410 ∷ 0x101 ∷ 0x200 ∷ 0x104 ∷ 0x800 ∷ 0x8 ∷ 0x200 ∷ 0x200
    ∷ 0x200 ∷ 0x460 ∷ 0x800 ∷ 0x41 ∷ 0x800 ∷ 0x800 ∷ 0x200 ∷ 0x98 ∷ 0x800 ∷ 0x2 ∷ 0x40 ∷ 0x8 ∷ 0x8
    ∷ 0x8 ∷ 0x40 ∷ 0x40 ∷ 0x40 ∷ 0x8 ∷ 0x40 ∷ 0x40 ∷ 0x40 ∷ 0x8 ∷ 0x40 ∷ 0x40 ∷ 0x40 ∷ 0x40 ∷ 0x803
    ∷ 0x104 ∷ 0x220 ∷ 0x8 ∷ 0x40 ∷ 0x30 ∷ 0x404 ∷ 0x880 ∷ 0x40 ∷ 0x280 ∷ 0x100 ∷ 0x411 ∷ 0x40 ∷ 0x40
    ∷ 0x40 ∷ 0x2 ∷ 0x8 ∷ 0x8 ∷ 0x8 ∷ 0x8 ∷ 0x40 ∷ 0x8 ∷ 0x8 ∷ 0x8 ∷ 0x40 ∷ 0x8 ∷ 0x8 ∷ 0x8 ∷ 0x40
    ∷ 0x40 ∷ 0x40 ∷ 0x8 ∷ 0x480 ∷ 0x8 ∷ 0x8 ∷ 0x8 ∷ 0x200 ∷ 0x1 ∷ 0x112 ∷ 0x8 ∷ 0x14 ∷ 0x22 ∷ 0x800
    ∷ 0x8 ∷ 0x40 ∷ 0xd00 ∷ 0xa1 ∷ 0x204 ∷ 0 ∷ 0xc0 ∷ 0x402 ∷ 0x21 ∷ 0x805 ∷ 0x102 ∷ 0x88 ∷ 0x210
    ∷ 0x320 ∷ 0x810 ∷ 0x88 ∷ 0x4 ∷ 0x88 ∷ 0x400 ∷ 0x88 ∷ 0x88 ∷ 0x18 ∷ 0x21 ∷ 0x21 ∷ 0x21 ∷ 0x200
    ∷ 0x400 ∷ 0x140 ∷ 0x21 ∷ 0x46 ∷ 0x400 ∷ 0x800 ∷ 0x21 ∷ 0x400 ∷ 0x400 ∷ 0x88 ∷ 0x400 ∷ 0xc0
    ∷ 0xc0 ∷ 0x114 ∷ 0xc0 ∷ 0x200 ∷ 0xc0 ∷ 0x20 ∷ 0xc00 ∷ 0x401 ∷ 0xc0 ∷ 0x800 ∷ 0x202 ∷ 0x12 ∷ 0x24
    ∷ 0x88 ∷ 0x101 ∷ 0x200 ∷ 0xc0 ∷ 0x800 ∷ 0x21 ∷ 0x200 ∷ 0x200 ∷ 0x200 ∷ 0xe ∷ 0x800 ∷ 0x108
    ∷ 0x800 ∷ 0x800 ∷ 0x200 ∷ 0x400 ∷ 0x800 ∷ 0x50 ∷ 0x18 ∷ 0x102 ∷ 0xa40 ∷ 0x4 ∷ 0x102 ∷ 0x102
    ∷ 0x20 ∷ 0x102 ∷ 0x401 ∷ 0x4 ∷ 0x4 ∷ 0x4 ∷ 0x40 ∷ 0x102 ∷ 0x88 ∷ 0x4 ∷ 0x18 ∷ 0x18 ∷ 0x18 ∷ 0x21
    ∷ 0x18 ∷ 0x102 ∷ 0x404 ∷ 0x880 ∷ 0x18 ∷ 0x280 ∷ 0x100 ∷ 0x4 ∷ 0x820 ∷ 0x400 ∷ 0x203 ∷ 0x50
    ∷ 0x401 ∷ 0xc0 ∷ 0x20 ∷ 0x8 ∷ 0x20 ∷ 0x102 ∷ 0x20 ∷ 0x20 ∷ 0x401 ∷ 0x401 ∷ 0x401 ∷ 0x4 ∷ 0x401
    ∷ 0xa08 ∷ 0x20 ∷ 0x50 ∷ 0x18 ∷ 0x804 ∷ 0x82 ∷ 0x700 ∷ 0x200 ∷ 0x1 ∷ 0x20 ∷ 0x50 ∷ 0x401 ∷ 0x22
    ∷ 0x800 ∷ 0x50 ∷ 0x184 ∷ 0x50 ∷ 0x50 ∷ 0x50 ∷ 0x402 ∷ 0x810 ∷ 0x402 ∷ 0x402 ∷ 0x200 ∷ 0x28
    ∷ 0x402 ∷ 0x44 ∷ 0x810 ∷ 0x810 ∷ 0x402 ∷ 0x810 ∷ 0x40 ∷ 0x810 ∷ 0x88 ∷ 0x101 ∷ 0x200 ∷ 0x104
    ∷ 0x402 ∷ 0x21 ∷ 0x200 ∷ 0x200 ∷ 0x200 ∷ 0x880 ∷ 0x81 ∷ 0x810 ∷ 0x100 ∷ 0x248 ∷ 0x200 ∷ 0x400
    ∷ 0x34 ∷ 0x2 ∷ 0x200 ∷ 0xc0 ∷ 0x402 ∷ 0x8 ∷ 0x200 ∷ 0x200 ∷ 0x200 ∷ 0x101 ∷ 0xc ∷ 0x810 ∷ 0x60
    ∷ 0x101 ∷ 0x200 ∷ 0x101 ∷ 0x101 ∷ 0x101 ∷ 0x200 ∷ 0x200 ∷ 0x200 ∷ 0x10 ∷ 0x200 ∷ 0x200 ∷ 0x200
    ∷ 0x200 ∷ 0x200 ∷ 0x22 ∷ 0x800 ∷ 0x484 ∷ 0x200 ∷ 0x200 ∷ 0x200 ∷ 0x101 ∷ 0xa4 ∷ 0x201 ∷ 0x402
    ∷ 0x8 ∷ 0x40 ∷ 0x102 ∷ 0x11 ∷ 0x880 ∷ 0x40 ∷ 0x810 ∷ 0x100 ∷ 0x4 ∷ 0x40 ∷ 0x40 ∷ 0x40 ∷ 0x620
    ∷ 0x18 ∷ 0x440 ∷ 0x100 ∷ 0x880 ∷ 0x200 ∷ 0x880 ∷ 0x880 ∷ 0x880 ∷ 0x100 ∷ 0x22 ∷ 0x100 ∷ 0x100
    ∷ 0x40 ∷ 0xd ∷ 0x100 ∷ 0x880 ∷ 0x900 ∷ 0x8 ∷ 0x8 ∷ 0x8 ∷ 0x200 ∷ 0x414 ∷ 0x20 ∷ 0x8 ∷ 0x401
    ∷ 0x22 ∷ 0x290 ∷ 0x8 ∷ 0x40 ∷ 0x80 ∷ 0x806 ∷ 0x101 ∷ 0x200 ∷ 0x22 ∷ 0x45 ∷ 0x8 ∷ 0x200 ∷ 0x200
    ∷ 0x200 ∷ 0x880 ∷ 0x22 ∷ 0x22 ∷ 0x100 ∷ 0x22 ∷ 0x200 ∷ 0x22 ∷ 0x408 ∷ 0x50 ∷ []
