-- ===== src/Http/Mimetypes/First.antt =====
-- src/Http.cpp: a part of `known_mimetypes`.
use frnetlib.Base.{List, [], ◌∷◌, Bytes, codes}

abbrev pub first_mimetypes : List (Bytes × Bytes)
first_mimetypes =
    (codes ".x3d", codes "application/vnd.hzn-3d-crossword")
    ∷ (codes ".3gp", codes "video/3gpp")
    ∷ (codes ".3g2", codes "video/3gpp2")
    ∷ (codes ".mseq", codes "application/vnd.mseq")
    ∷ (codes ".pwn", codes "application/vnd.3m.post-it-notes")
    ∷ (codes ".plb", codes "application/vnd.3gpp.pic-bw-large")
    ∷ (codes ".psb", codes "application/vnd.3gpp.pic-bw-small")
    ∷ (codes ".pvb", codes "application/vnd.3gpp.pic-bw-var")
    ∷ (codes ".tcap", codes "application/vnd.3gpp2.tcap")
    ∷ (codes ".7z", codes "application/x-7z-compressed")
    ∷ (codes ".abw", codes "application/x-abiword")
    ∷ (codes ".ace", codes "application/x-ace-compressed")
    ∷ (codes ".acc", codes "application/vnd.americandynamics.acc")
    ∷ (codes ".acu", codes "application/vnd.acucobol")
    ∷ (codes ".atc", codes "application/vnd.acucorp")
    ∷ (codes ".adp", codes "audio/adpcm")
    ∷ (codes ".aab", codes "application/x-authorware-bin")
    ∷ (codes ".aam", codes "application/x-authorware-map")
    ∷ (codes ".aas", codes "application/x-authorware-seg")
    ∷ (codes ".air", codes "application/vnd.adobe.air-application-installer-package+zip")
    ∷ (codes ".swf", codes "application/x-shockwave-flash")
    ∷ (codes ".fxp", codes "application/vnd.adobe.fxp")
    ∷ (codes ".pdf", codes "application/pdf")
    ∷ (codes ".ppd", codes "application/vnd.cups-ppd")
    ∷ (codes ".dir", codes "application/x-director")
    ∷ (codes ".xdp", codes "application/vnd.adobe.xdp+xml")
    ∷ (codes ".xfdf", codes "application/vnd.adobe.xfdf")
    ∷ (codes ".aac", codes "audio/x-aac")
    ∷ (codes ".ahead", codes "application/vnd.ahead.space")
    ∷ (codes ".azf", codes "application/vnd.airzip.filesecure.azf")
    ∷ (codes ".azs", codes "application/vnd.airzip.filesecure.azs")
    ∷ (codes ".azw", codes "application/vnd.amazon.ebook")
    ∷ (codes ".ami", codes "application/vnd.amiga.ami")
    ∷ (codes "N/A", codes "application/andrew-inset")
    ∷ (codes ".apk", codes "application/vnd.android.package-archive")
    ∷ (codes ".cii", codes "application/vnd.anser-web-certificate-issue-initiation")
    ∷ (codes ".fti", codes "application/vnd.anser-web-funds-transfer-initiation")
    ∷ (codes ".atx", codes "application/vnd.antix.game-component")
    ∷ (codes ".mpkg", codes "application/vnd.apple.installer+xml")
    ∷ (codes ".aw", codes "application/applixware")
    ∷ (codes ".les", codes "application/vnd.hhe.lesson-player")
    ∷ (codes ".swi", codes "application/vnd.aristanetworks.swi")
    ∷ (codes ".s", codes "text/x-asm")
    ∷ (codes ".atomcat", codes "application/atomcat+xml")
    ∷ (codes ".atomsvc", codes "application/atomsvc+xml")
    ∷ (codes ".atom, .xml", codes "application/atom+xml")
    ∷ (codes ".ac", codes "application/pkix-attr-cert")
    ∷ (codes ".aif", codes "audio/x-aiff")
    ∷ (codes ".avi", codes "video/x-msvideo")
    ∷ (codes ".aep", codes "application/vnd.audiograph")
    ∷ (codes ".dxf", codes "image/vnd.dxf")
    ∷ (codes ".dwf", codes "model/vnd.dwf")
    ∷ (codes ".par", codes "text/plain-bas")
    ∷ (codes ".bcpio", codes "application/x-bcpio")
    ∷ (codes ".bin", codes "application/octet-stream")
    ∷ (codes ".bmp", codes "image/bmp")
    ∷ (codes ".torrent", codes "application/x-bittorrent")
    ∷ (codes ".cod", codes "application/vnd.rim.cod")
    ∷ (codes ".mpm", codes "application/vnd.blueice.multipass")
    ∷ (codes ".bmi", codes "application/vnd.bmi")
    ∷ (codes ".sh", codes "application/x-sh")
    ∷ (codes ".btif", codes "image/prs.btif")
    ∷ (codes ".rep", codes "application/vnd.businessobjects")
    ∷ (codes ".bz", codes "application/x-bzip")
    ∷ (codes ".bz2", codes "application/x-bzip2")
    ∷ (codes ".csh", codes "application/x-csh")
    ∷ (codes ".c", codes "text/x-c")
    ∷ (codes ".cdxml", codes "application/vnd.chemdraw+xml")
    ∷ (codes ".css", codes "text/css")
    ∷ (codes ".cdx", codes "chemical/x-cdx")
    ∷ (codes ".cml", codes "chemical/x-cml")
    ∷ (codes ".csml", codes "chemical/x-csml")
    ∷ (codes ".cdbcmsg", codes "application/vnd.contact.cmsg")
    ∷ (codes ".cla", codes "application/vnd.claymore")
    ∷ (codes ".c4g", codes "application/vnd.clonk.c4group")
    ∷ (codes ".sub", codes "image/vnd.dvb.subtitle")
    ∷ (codes ".cdmia", codes "application/cdmi-capability")
    ∷ (codes ".cdmic", codes "application/cdmi-container")
    ∷ (codes ".cdmid", codes "application/cdmi-domain")
    ∷ (codes ".cdmio", codes "application/cdmi-object")
    ∷ (codes ".cdmiq", codes "application/cdmi-queue")
    ∷ (codes ".c11amc", codes "application/vnd.cluetrust.cartomobile-config")
    ∷ (codes ".c11amz", codes "application/vnd.cluetrust.cartomobile-config-pkg")
    ∷ (codes ".ras", codes "image/x-cmu-raster")
    ∷ (codes ".dae", codes "model/vnd.collada+xml")
    ∷ (codes ".csv", codes "text/csv")
    ∷ (codes ".cpt", codes "application/mac-compactpro")
    ∷ (codes ".wmlc", codes "application/vnd.wap.wmlc")
    ∷ (codes ".cgm", codes "image/cgm")
    ∷ (codes ".ice", codes "x-conference/x-cooltalk")
    ∷ (codes ".cmx", codes "image/x-cmx")
    ∷ (codes ".xar", codes "application/vnd.xara")
    ∷ (codes ".cmc", codes "application/vnd.cosmocaller")
    ∷ (codes ".cpio", codes "application/x-cpio")
    ∷ (codes ".clkx", codes "application/vnd.crick.clicker")
    ∷ (codes ".clkk", codes "application/vnd.crick.clicker.keyboard")
    ∷ (codes ".clkp", codes "application/vnd.crick.clicker.palette")
    ∷ (codes ".clkt", codes "application/vnd.crick.clicker.template")
    ∷ (codes ".clkw", codes "application/vnd.crick.clicker.wordbank")
    ∷ (codes ".wbs", codes "application/vnd.criticaltools.wbs+xml")
    ∷ (codes ".cryptonote", codes "application/vnd.rig.cryptonote")
    ∷ (codes ".cif", codes "chemical/x-cif")
    ∷ (codes ".cmdf", codes "chemical/x-cmdf")
    ∷ (codes ".cu", codes "application/cu-seeme")
    ∷ (codes ".cww", codes "application/prs.cww")
    ∷ (codes ".curl", codes "text/vnd.curl")
    ∷ (codes ".dcurl", codes "text/vnd.curl.dcurl")
    ∷ (codes ".mcurl", codes "text/vnd.curl.mcurl")
    ∷ (codes ".scurl", codes "text/vnd.curl.scurl")
    ∷ (codes ".car", codes "application/vnd.curl.car")
    ∷ (codes ".pcurl", codes "application/vnd.curl.pcurl")
    ∷ (codes ".cmp", codes "application/vnd.yellowriver-custom-menu")
    ∷ (codes ".dssc", codes "application/dssc+der")
    ∷ (codes ".xdssc", codes "application/dssc+xml")
    ∷ (codes ".deb", codes "application/x-debian-package")
    ∷ (codes ".uva", codes "audio/vnd.dece.audio")
    ∷ (codes ".uvi", codes "image/vnd.dece.graphic")
    ∷ (codes ".uvh", codes "video/vnd.dece.hd")
    ∷ (codes ".uvm", codes "video/vnd.dece.mobile")
    ∷ (codes ".uvu", codes "video/vnd.uvvu.mp4")
    ∷ (codes ".uvp", codes "video/vnd.dece.pd")
    ∷ (codes ".uvs", codes "video/vnd.dece.sd")
    ∷ (codes ".uvv", codes "video/vnd.dece.video")
    ∷ (codes ".dvi", codes "application/x-dvi")
    ∷ (codes ".seed", codes "application/vnd.fdsn.seed")
    ∷ (codes ".dtb", codes "application/x-dtbook+xml")
    ∷ (codes ".res", codes "application/x-dtbresource+xml")
    ∷ (codes ".ait", codes "application/vnd.dvb.ait")
    ∷ (codes ".svc", codes "application/vnd.dvb.service")
    ∷ (codes ".eol", codes "audio/vnd.digital-winds")
    ∷ (codes ".djvu", codes "image/vnd.djvu")
    ∷ (codes ".dtd", codes "application/xml-dtd")
    ∷ (codes ".mlp", codes "application/vnd.dolby.mlp")
    ∷ (codes ".wad", codes "application/x-doom")
    ∷ (codes ".dpg", codes "application/vnd.dpgraph")
    ∷ (codes ".dra", codes "audio/vnd.dra")
    ∷ (codes ".dfac", codes "application/vnd.dreamfactory")
    ∷ (codes ".dts", codes "audio/vnd.dts")
    ∷ []
