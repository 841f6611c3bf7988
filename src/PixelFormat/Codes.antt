-- ===== src/PixelFormat/Codes.antt =====
-- device/src/pixel_format.rs: `From<PixelFormat> for u32`.
use cameleon.Prelude.{ℕ}
use cameleon.PixelFormat.{PixelFormat}
use cameleon.PixelFormat.{mono8, mono8s, mono10, mono10_packed, mono12, mono12_packed, mono16}
use cameleon.PixelFormat.{bayer_gr8, bayer_rg8, bayer_gb8, bayer_bg8, bayer_gr10, bayer_rg10}
use cameleon.PixelFormat.{bayer_gb10, bayer_bg10, bayer_gr12, bayer_rg12, bayer_gb12, bayer_bg12}
use cameleon.PixelFormat.{rgb8, bgr8, rgba8, bgra8, rgb10, bgr10, rgb12, bgr12, yuv8_uyv}
use cameleon.PixelFormat.{rgb8_planar, rgb10_planar, rgb12_planar, rgb16_planar, mono14}
use cameleon.PixelFormat.{bayer_gr10_packed, bayer_rg10_packed, bayer_gb10_packed}
use cameleon.PixelFormat.{bayer_bg10_packed, bayer_gr12_packed, bayer_rg12_packed}
use cameleon.PixelFormat.{bayer_gb12_packed, bayer_bg12_packed, bayer_gr16, bayer_rg16}
use cameleon.PixelFormat.{bayer_gb16, bayer_bg16, yuv422_8, rgb16, rgb12_v1_packed, rgb565p}
use cameleon.PixelFormat.{bgr565p, mono1p, mono2p, mono4p, ycb_cr8_cb_ycr, ycb_cr422_8}
use cameleon.PixelFormat.{ycb_cr411_8_cb_yycr_yy, ycb_cr601_8_cb_ycr, ycb_cr601_422_8}
use cameleon.PixelFormat.{ycb_cr601_411_8_cb_yycr_yy, ycb_cr709_8_cb_ycr, ycb_cr709_422_8}
use cameleon.PixelFormat.{ycb_cr709_411_8_cb_yycr_yy, ycb_cr422_8_cb_ycr_y}
use cameleon.PixelFormat.{ycb_cr601_422_8_cb_ycr_y, ycb_cr709_422_8_cb_ycr_y, mono10p, mono12p}
use cameleon.PixelFormat.{bgr10p, bgr12p, bgr14, bgr16, bgra10, bgra10p, bgra12, bgra12p, bgra14}
use cameleon.PixelFormat.{bgra16, bayer_bg10p, bayer_bg12p, bayer_gb10p, bayer_gb12p, bayer_gr10p}
use cameleon.PixelFormat.{bayer_gr12p, bayer_rg10p, bayer_rg12p, ycb_cr411_8, ycb_cr8, rgb10p}
use cameleon.PixelFormat.{rgb12p, rgb14, rgba10, rgba10p, rgba12, rgba12p, rgba14, rgba16}
use cameleon.PixelFormat.{ycb_cr422_10, ycb_cr422_12, scf1_wbwg8, scf1_wbwg10, scf1_wbwg10p}
use cameleon.PixelFormat.{scf1_wbwg12, scf1_wbwg12p, scf1_wbwg14, scf1_wbwg16, scf1_wgwb8}
use cameleon.PixelFormat.{scf1_wgwb10, scf1_wgwb10p, scf1_wgwb12, scf1_wgwb12p, scf1_wgwb14}
use cameleon.PixelFormat.{scf1_wgwb16, scf1_wgwr8, scf1_wgwr10, scf1_wgwr10p, scf1_wgwr12}
use cameleon.PixelFormat.{scf1_wgwr12p, scf1_wgwr14, scf1_wgwr16, scf1_wrwg8, scf1_wrwg10}
use cameleon.PixelFormat.{scf1_wrwg10p, scf1_wrwg12, scf1_wrwg12p, scf1_wrwg14, scf1_wrwg16}
use cameleon.PixelFormat.{ycb_cr10_cb_ycr, ycb_cr10p_cb_ycr, ycb_cr12_cb_ycr, ycb_cr12p_cb_ycr}
use cameleon.PixelFormat.{ycb_cr422_10p, ycb_cr422_12p, ycb_cr601_10_cb_ycr, ycb_cr601_10p_cb_ycr}
use cameleon.PixelFormat.{ycb_cr601_12_cb_ycr, ycb_cr601_12p_cb_ycr, ycb_cr601_422_10}
use cameleon.PixelFormat.{ycb_cr601_422_10p, ycb_cr601_422_12, ycb_cr601_422_12p}
use cameleon.PixelFormat.{ycb_cr709_10_cb_ycr, ycb_cr709_10p_cb_ycr, ycb_cr709_12_cb_ycr}
use cameleon.PixelFormat.{ycb_cr709_12p_cb_ycr, ycb_cr709_422_10, ycb_cr709_422_10p}
use cameleon.PixelFormat.{ycb_cr709_422_12, ycb_cr709_422_12p, ycb_cr422_10_cb_ycr_y}
use cameleon.PixelFormat.{ycb_cr422_10p_cb_ycr_y, ycb_cr422_12_cb_ycr_y, ycb_cr422_12p_cb_ycr_y}
use cameleon.PixelFormat.{ycb_cr601_422_10_cb_ycr_y, ycb_cr601_422_10p_cb_ycr_y}
use cameleon.PixelFormat.{ycb_cr601_422_12_cb_ycr_y, ycb_cr601_422_12p_cb_ycr_y}
use cameleon.PixelFormat.{ycb_cr709_422_10_cb_ycr_y, ycb_cr709_422_10p_cb_ycr_y}
use cameleon.PixelFormat.{ycb_cr709_422_12_cb_ycr_y, ycb_cr709_422_12p_cb_ycr_y, bi_color_rgbg8}
use cameleon.PixelFormat.{bi_color_bgrg8, bi_color_rgbg10, bi_color_rgbg10p, bi_color_bgrg10}
use cameleon.PixelFormat.{bi_color_bgrg10p, bi_color_rgbg12, bi_color_rgbg12p, bi_color_bgrg12}
use cameleon.PixelFormat.{bi_color_bgrg12p, coord3_d_a8, coord3_d_b8, coord3_d_c8, coord3_d_abc8}
use cameleon.PixelFormat.{coord3_d_abc8_planar, coord3_d_ac8, coord3_d_ac8_planar, coord3_d_a16}
use cameleon.PixelFormat.{coord3_d_b16, coord3_d_c16, coord3_d_abc16, coord3_d_abc16_planar}
use cameleon.PixelFormat.{coord3_d_ac16, coord3_d_ac16_planar, coord3_d_a32f, coord3_d_b32f}
use cameleon.PixelFormat.{coord3_d_c32f, coord3_d_abc32f, coord3_d_abc32f_planar, coord3_d_ac32f}
use cameleon.PixelFormat.{coord3_d_ac32f_planar, confidence1, confidence1p, confidence8}
use cameleon.PixelFormat.{confidence16, confidence32f, r8, r10, r12, r16, g8, g10, g12, g16, b8}
use cameleon.PixelFormat.{b10, b12, b16, coord3_d_a10p, coord3_d_b10p, coord3_d_c10p}
use cameleon.PixelFormat.{coord3_d_a12p, coord3_d_b12p, coord3_d_c12p, coord3_d_abc10p}
use cameleon.PixelFormat.{coord3_d_abc10p_planar, coord3_d_abc12p, coord3_d_abc12p_planar}
use cameleon.PixelFormat.{coord3_d_ac10p, coord3_d_ac10p_planar, coord3_d_ac12p}
use cameleon.PixelFormat.{coord3_d_ac12p_planar, ycb_cr2020_8_cb_ycr, ycb_cr2020_10_cb_ycr}
use cameleon.PixelFormat.{ycb_cr2020_10p_cb_ycr, ycb_cr2020_12_cb_ycr, ycb_cr2020_12p_cb_ycr}
use cameleon.PixelFormat.{ycb_cr2020_411_8_cb_yycr_yy, ycb_cr2020_422_8}
use cameleon.PixelFormat.{ycb_cr2020_422_8_cb_ycr_y, ycb_cr2020_422_10}
use cameleon.PixelFormat.{ycb_cr2020_422_10_cb_ycr_y, ycb_cr2020_422_10p}
use cameleon.PixelFormat.{ycb_cr2020_422_10p_cb_ycr_y, ycb_cr2020_422_12}
use cameleon.PixelFormat.{ycb_cr2020_422_12_cb_ycr_y, ycb_cr2020_422_12p}
use cameleon.PixelFormat.{ycb_cr2020_422_12p_cb_ycr_y, mono14p, bayer_gr14p, bayer_rg14p}
use cameleon.PixelFormat.{bayer_gb14p, bayer_bg14p, bayer_gr14, bayer_rg14, bayer_gb14}
use cameleon.PixelFormat.{bayer_bg14, bayer_gr4p, bayer_rg4p, bayer_gb4p, bayer_bg4p, mono32}
use cameleon.PixelFormat.{ycb_cr420_8_yy_cb_cr_semiplanar, ycb_cr422_8_yy_cb_cr_semiplanar}
use cameleon.PixelFormat.{ycb_cr420_8_yy_cr_cb_semiplanar, ycb_cr422_8_yy_cr_cb_semiplanar, data8}
use cameleon.PixelFormat.{data8s, data16, data16s, data32, data32s, data32f, data64, data64s}
use cameleon.PixelFormat.{data64f}

unfoldable pub code_of : PixelFormat → ℕ
code_of mono8 = 0x0108_0001
code_of mono8s = 0x0108_0002
code_of mono10 = 0x0110_0003
code_of mono10_packed = 0x010C_0004
code_of mono12 = 0x0110_0005
code_of mono12_packed = 0x010C_0006
code_of mono16 = 0x0110_0007
code_of bayer_gr8 = 0x0108_0008
code_of bayer_rg8 = 0x0108_0009
code_of bayer_gb8 = 0x0108_000A
code_of bayer_bg8 = 0x0108_000B
code_of bayer_gr10 = 0x0110_000C
code_of bayer_rg10 = 0x0110_000D
code_of bayer_gb10 = 0x0110_000E
code_of bayer_bg10 = 0x0110_000F
code_of bayer_gr12 = 0x0110_0010
code_of bayer_rg12 = 0x0110_0011
code_of bayer_gb12 = 0x0110_0012
code_of bayer_bg12 = 0x0110_0013
code_of rgb8 = 0x0218_0014
code_of bgr8 = 0x0218_0015
code_of rgba8 = 0x0220_0016
code_of bgra8 = 0x0220_0017
code_of rgb10 = 0x0230_0018
code_of bgr10 = 0x0230_0019
code_of rgb12 = 0x0230_001A
code_of bgr12 = 0x0230_001B
code_of yuv8_uyv = 0x0218_0020
code_of rgb8_planar = 0x0218_0021
code_of rgb10_planar = 0x0230_0022
code_of rgb12_planar = 0x0230_0023
code_of rgb16_planar = 0x0230_0024
code_of mono14 = 0x0110_0025
code_of bayer_gr10_packed = 0x010C_0026
code_of bayer_rg10_packed = 0x010C_0027
code_of bayer_gb10_packed = 0x010C_0028
code_of bayer_bg10_packed = 0x010C_0029
code_of bayer_gr12_packed = 0x010C_002A
code_of bayer_rg12_packed = 0x010C_002B
code_of bayer_gb12_packed = 0x010C_002C
code_of bayer_bg12_packed = 0x010C_002D
code_of bayer_gr16 = 0x0110_002E
code_of bayer_rg16 = 0x0110_002F
code_of bayer_gb16 = 0x0110_0030
code_of bayer_bg16 = 0x0110_0031
code_of yuv422_8 = 0x0210_0032
code_of rgb16 = 0x0230_0033
code_of rgb12_v1_packed = 0x0224_0034
code_of rgb565p = 0x0210_0035
code_of bgr565p = 0x0210_0036
code_of mono1p = 0x0101_0037
code_of mono2p = 0x0102_0038
code_of mono4p = 0x0104_0039
code_of ycb_cr8_cb_ycr = 0x0218_003A
code_of ycb_cr422_8 = 0x0210_003B
code_of ycb_cr411_8_cb_yycr_yy = 0x020C_003C
code_of ycb_cr601_8_cb_ycr = 0x0218_003D
code_of ycb_cr601_422_8 = 0x0210_003E
code_of ycb_cr601_411_8_cb_yycr_yy = 0x020C_003F
code_of ycb_cr709_8_cb_ycr = 0x0218_0040
code_of ycb_cr709_422_8 = 0x0210_0041
code_of ycb_cr709_411_8_cb_yycr_yy = 0x020C_0042
code_of ycb_cr422_8_cb_ycr_y = 0x0210_0043
code_of ycb_cr601_422_8_cb_ycr_y = 0x0210_0044
code_of ycb_cr709_422_8_cb_ycr_y = 0x0210_0045
code_of mono10p = 0x010A_0046
code_of mono12p = 0x010C_0047
code_of bgr10p = 0x021E_0048
code_of bgr12p = 0x0224_0049
code_of bgr14 = 0x0230_004A
code_of bgr16 = 0x0230_004B
code_of bgra10 = 0x0240_004C
code_of bgra10p = 0x0228_004D
code_of bgra12 = 0x0240_004E
code_of bgra12p = 0x0230_004F
code_of bgra14 = 0x0240_0050
code_of bgra16 = 0x0240_0051
code_of bayer_bg10p = 0x010A_0052
code_of bayer_bg12p = 0x010C_0053
code_of bayer_gb10p = 0x010A_0054
code_of bayer_gb12p = 0x010C_0055
code_of bayer_gr10p = 0x010A_0056
code_of bayer_gr12p = 0x010C_0057
code_of bayer_rg10p = 0x010A_0058
code_of bayer_rg12p = 0x010C_0059
code_of ycb_cr411_8 = 0x020C_005A
code_of ycb_cr8 = 0x0218_005B
code_of rgb10p = 0x021E_005C
code_of rgb12p = 0x0224_005D
code_of rgb14 = 0x0230_005E
code_of rgba10 = 0x0240_005F
code_of rgba10p = 0x0228_0060
code_of rgba12 = 0x0240_0061
code_of rgba12p = 0x0230_0062
code_of rgba14 = 0x0240_0063
code_of rgba16 = 0x0240_0064
code_of ycb_cr422_10 = 0x0220_0065
code_of ycb_cr422_12 = 0x0220_0066
code_of scf1_wbwg8 = 0x0108_0067
code_of scf1_wbwg10 = 0x0110_0068
code_of scf1_wbwg10p = 0x010A_0069
code_of scf1_wbwg12 = 0x0110_006A
code_of scf1_wbwg12p = 0x010C_006B
code_of scf1_wbwg14 = 0x0110_006C
code_of scf1_wbwg16 = 0x0110_006D
code_of scf1_wgwb8 = 0x0108_006E
code_of scf1_wgwb10 = 0x0110_006F
code_of scf1_wgwb10p = 0x010A_0070
code_of scf1_wgwb12 = 0x0110_0071
code_of scf1_wgwb12p = 0x010C_0072
code_of scf1_wgwb14 = 0x0110_0073
code_of scf1_wgwb16 = 0x0110_0074
code_of scf1_wgwr8 = 0x0108_0075
code_of scf1_wgwr10 = 0x0110_0076
code_of scf1_wgwr10p = 0x010A_0077
code_of scf1_wgwr12 = 0x0110_0078
code_of scf1_wgwr12p = 0x010C_0079
code_of scf1_wgwr14 = 0x0110_007A
code_of scf1_wgwr16 = 0x0110_007B
code_of scf1_wrwg8 = 0x0108_007C
code_of scf1_wrwg10 = 0x0110_007D
code_of scf1_wrwg10p = 0x010A_007E
code_of scf1_wrwg12 = 0x0110_007F
code_of scf1_wrwg12p = 0x010C_0080
code_of scf1_wrwg14 = 0x0110_0081
code_of scf1_wrwg16 = 0x0110_0082
code_of ycb_cr10_cb_ycr = 0x0230_0083
code_of ycb_cr10p_cb_ycr = 0x021E_0084
code_of ycb_cr12_cb_ycr = 0x0230_0085
code_of ycb_cr12p_cb_ycr = 0x0224_0086
code_of ycb_cr422_10p = 0x0214_0087
code_of ycb_cr422_12p = 0x0218_0088
code_of ycb_cr601_10_cb_ycr = 0x0230_0089
code_of ycb_cr601_10p_cb_ycr = 0x021E_008A
code_of ycb_cr601_12_cb_ycr = 0x0230_008B
code_of ycb_cr601_12p_cb_ycr = 0x0224_008C
code_of ycb_cr601_422_10 = 0x0220_008D
code_of ycb_cr601_422_10p = 0x0214_008E
code_of ycb_cr601_422_12 = 0x0220_008F
code_of ycb_cr601_422_12p = 0x0218_0090
code_of ycb_cr709_10_cb_ycr = 0x0230_0091
code_of ycb_cr709_10p_cb_ycr = 0x021E_0092
code_of ycb_cr709_12_cb_ycr = 0x0230_0093
code_of ycb_cr709_12p_cb_ycr = 0x0224_0094
code_of ycb_cr709_422_10 = 0x0220_0095
code_of ycb_cr709_422_10p = 0x0214_0096
code_of ycb_cr709_422_12 = 0x0220_0097
code_of ycb_cr709_422_12p = 0x0218_0098
code_of ycb_cr422_10_cb_ycr_y = 0x0220_0099
code_of ycb_cr422_10p_cb_ycr_y = 0x0214_009A
code_of ycb_cr422_12_cb_ycr_y = 0x0220_009B
code_of ycb_cr422_12p_cb_ycr_y = 0x0218_009C
code_of ycb_cr601_422_10_cb_ycr_y = 0x0220_009D
code_of ycb_cr601_422_10p_cb_ycr_y = 0x0214_009E
code_of ycb_cr601_422_12_cb_ycr_y = 0x0220_009F
code_of ycb_cr601_422_12p_cb_ycr_y = 0x0218_00A0
code_of ycb_cr709_422_10_cb_ycr_y = 0x0220_00A1
code_of ycb_cr709_422_10p_cb_ycr_y = 0x0214_00A2
code_of ycb_cr709_422_12_cb_ycr_y = 0x0220_00A3
code_of ycb_cr709_422_12p_cb_ycr_y = 0x0218_00A4
code_of bi_color_rgbg8 = 0x0210_00A5
code_of bi_color_bgrg8 = 0x0210_00A6
code_of bi_color_rgbg10 = 0x0220_00A7
code_of bi_color_rgbg10p = 0x0214_00A8
code_of bi_color_bgrg10 = 0x0220_00A9
code_of bi_color_bgrg10p = 0x0214_00AA
code_of bi_color_rgbg12 = 0x0220_00AB
code_of bi_color_rgbg12p = 0x0218_00AC
code_of bi_color_bgrg12 = 0x0220_00AD
code_of bi_color_bgrg12p = 0x0218_00AE
code_of coord3_d_a8 = 0x0108_00AF
code_of coord3_d_b8 = 0x0108_00B0
code_of coord3_d_c8 = 0x0108_00B1
code_of coord3_d_abc8 = 0x0218_00B2
code_of coord3_d_abc8_planar = 0x0218_00B3
code_of coord3_d_ac8 = 0x0210_00B4
code_of coord3_d_ac8_planar = 0x0210_00B5
code_of coord3_d_a16 = 0x0110_00B6
code_of coord3_d_b16 = 0x0110_00B7
code_of coord3_d_c16 = 0x0110_00B8
code_of coord3_d_abc16 = 0x0230_00B9
code_of coord3_d_abc16_planar = 0x0230_00BA
code_of coord3_d_ac16 = 0x0220_00BB
code_of coord3_d_ac16_planar = 0x0220_00BC
code_of coord3_d_a32f = 0x0120_00BD
code_of coord3_d_b32f = 0x0120_00BE
code_of coord3_d_c32f = 0x0120_00BF
code_of coord3_d_abc32f = 0x0260_00C0
code_of coord3_d_abc32f_planar = 0x0260_00C1
code_of coord3_d_ac32f = 0x0240_00C2
code_of coord3_d_ac32f_planar = 0x0240_00C3
code_of confidence1 = 0x0108_00C4
code_of confidence1p = 0x0101_00C5
code_of confidence8 = 0x0108_00C6
code_of confidence16 = 0x0110_00C7
code_of confidence32f = 0x0120_00C8
code_of r8 = 0x0108_00C9
code_of r10 = 0x010A_00CA
code_of r12 = 0x010C_00CB
code_of r16 = 0x0110_00CC
code_of g8 = 0x0108_00CD
code_of g10 = 0x010A_00CE
code_of g12 = 0x010C_00CF
code_of g16 = 0x0110_00D0
code_of b8 = 0x0108_00D1
code_of b10 = 0x010A_00D2
code_of b12 = 0x010C_00D3
code_of b16 = 0x0110_00D4
code_of coord3_d_a10p = 0x010A_00D5
code_of coord3_d_b10p = 0x010A_00D6
code_of coord3_d_c10p = 0x010A_00D7
code_of coord3_d_a12p = 0x010C_00D8
code_of coord3_d_b12p = 0x010C_00D9
code_of coord3_d_c12p = 0x010C_00DA
code_of coord3_d_abc10p = 0x021E_00DB
code_of coord3_d_abc10p_planar = 0x021E_00DC
code_of coord3_d_abc12p = 0x0224_00DE
code_of coord3_d_abc12p_planar = 0x0224_00DF
code_of coord3_d_ac10p = 0x0214_00F0
code_of coord3_d_ac10p_planar = 0x0214_00F1
code_of coord3_d_ac12p = 0x0218_00F2
code_of coord3_d_ac12p_planar = 0x0218_00F3
code_of ycb_cr2020_8_cb_ycr = 0x0218_00F4
code_of ycb_cr2020_10_cb_ycr = 0x0230_00F5
code_of ycb_cr2020_10p_cb_ycr = 0x021E_00F6
code_of ycb_cr2020_12_cb_ycr = 0x0230_00F7
code_of ycb_cr2020_12p_cb_ycr = 0x0224_00F8
code_of ycb_cr2020_411_8_cb_yycr_yy = 0x020C_00F9
code_of ycb_cr2020_422_8 = 0x0210_00FA
code_of ycb_cr2020_422_8_cb_ycr_y = 0x0210_00FB
code_of ycb_cr2020_422_10 = 0x0220_00FC
code_of ycb_cr2020_422_10_cb_ycr_y = 0x0220_00FD
code_of ycb_cr2020_422_10p = 0x0214_00FE
code_of ycb_cr2020_422_10p_cb_ycr_y = 0x0214_00FF
code_of ycb_cr2020_422_12 = 0x0220_0100
code_of ycb_cr2020_422_12_cb_ycr_y = 0x0220_0101
code_of ycb_cr2020_422_12p = 0x0218_0102
code_of ycb_cr2020_422_12p_cb_ycr_y = 0x0218_0103
code_of mono14p = 0x010E_0104
code_of bayer_gr14p = 0x010E_0105
code_of bayer_rg14p = 0x010E_0106
code_of bayer_gb14p = 0x010E_0107
code_of bayer_bg14p = 0x010E_0108
code_of bayer_gr14 = 0x0110_0109
code_of bayer_rg14 = 0x0110_010A
code_of bayer_gb14 = 0x0110_010B
code_of bayer_bg14 = 0x0110_010C
code_of bayer_gr4p = 0x0104_010D
code_of bayer_rg4p = 0x0104_010E
code_of bayer_gb4p = 0x0104_010F
code_of bayer_bg4p = 0x0104_0110
code_of mono32 = 0x0120_0111
code_of ycb_cr420_8_yy_cb_cr_semiplanar = 0x020C_0112
code_of ycb_cr422_8_yy_cb_cr_semiplanar = 0x0210_0113
code_of ycb_cr420_8_yy_cr_cb_semiplanar = 0x020C_0114
code_of ycb_cr422_8_yy_cr_cb_semiplanar = 0x0210_0115
code_of data8 = 0x0108_0116
code_of data8s = 0x0108_0117
code_of data16 = 0x0110_0118
code_of data16s = 0x0110_0119
code_of data32 = 0x0120_011A
code_of data32s = 0x0120_011B
code_of data32f = 0x0120_011C
code_of data64 = 0x0140_011D
code_of data64s = 0x0140_011E
code_of data64f = 0x0140_011F
