-- ===== src/Http/Mimetypes/Second.antt =====
-- src/Http.cpp: a part of `known_mimetypes`.
use frnetlib.Base.{List, [], ◌∷◌, Bytes, codes}

abbrev pub second_mimetypes : List (Bytes × Bytes)
second_mimetypes =
    (codes ".dtshd", codes "audio/vnd.dts.hd")
    ∷ (codes ".dwg", codes "image/vnd.dwg")
    ∷ (codes ".geo", codes "application/vnd.dynageo")
    ∷ (codes ".es", codes "application/ecmascript")
    ∷ (codes ".mag", codes "application/vnd.ecowin.chart")
    ∷ (codes ".mmr", codes "image/vnd.fujixerox.edmics-mmr")
    ∷ (codes ".rlc", codes "image/vnd.fujixerox.edmics-rlc")
    ∷ (codes ".exi", codes "application/exi")
    ∷ (codes ".mgz", codes "application/vnd.proteus.magazine")
    ∷ (codes ".epub", codes "application/epub+zip")
    ∷ (codes ".eml", codes "message/rfc822")
    ∷ (codes ".nml", codes "application/vnd.enliven")
    ∷ (codes ".xpr", codes "application/vnd.is-xpr")
    ∷ (codes ".xif", codes "image/vnd.xiff")
    ∷ (codes ".xfdl", codes "application/vnd.xfdl")
    ∷ (codes ".emma", codes "application/emma+xml")
    ∷ (codes ".ez2", codes "application/vnd.ezpix-album")
    ∷ (codes ".ez3", codes "application/vnd.ezpix-package")
    ∷ (codes ".fst", codes "image/vnd.fst")
    ∷ (codes ".fvt", codes "video/vnd.fvt")
    ∷ (codes ".fbs", codes "image/vnd.fastbidsheet")
    ∷ (codes ".fe_launch", codes "application/vnd.denovo.fcselayout-link")
    ∷ (codes ".f4v", codes "video/x-f4v")
    ∷ (codes ".flv", codes "video/x-flv")
    ∷ (codes ".fpx", codes "image/vnd.fpx")
    ∷ (codes ".npx", codes "image/vnd.net-fpx")
    ∷ (codes ".flx", codes "text/vnd.fmi.flexstor")
    ∷ (codes ".fli", codes "video/x-fli")
    ∷ (codes ".ftc", codes "application/vnd.fluxtime.clip")
    ∷ (codes ".fdf", codes "application/vnd.fdf")
    ∷ (codes ".f", codes "text/x-fortran")
    ∷ (codes ".mif", codes "application/vnd.mif")
    ∷ (codes ".fm", codes "application/vnd.framemaker")
    ∷ (codes ".fh", codes "image/x-freehand")
    ∷ (codes ".fsc", codes "application/vnd.fsc.weblaunch")
    ∷ (codes ".fnc", codes "application/vnd.frogans.fnc")
    ∷ (codes ".ltf", codes "application/vnd.frogans.ltf")
    ∷ (codes ".ddd", codes "application/vnd.fujixerox.ddd")
    ∷ (codes ".xdw", codes "application/vnd.fujixerox.docuworks")
    ∷ (codes ".xbd", codes "application/vnd.fujixerox.docuworks.binder")
    ∷ (codes ".oas", codes "application/vnd.fujitsu.oasys")
    ∷ (codes ".oa2", codes "application/vnd.fujitsu.oasys2")
    ∷ (codes ".oa3", codes "application/vnd.fujitsu.oasys3")
    ∷ (codes ".fg5", codes "application/vnd.fujitsu.oasysgp")
    ∷ (codes ".bh2", codes "application/vnd.fujitsu.oasysprs")
    ∷ (codes ".spl", codes "application/x-futuresplash")
    ∷ (codes ".fzs", codes "application/vnd.fuzzysheet")
    ∷ (codes ".g3", codes "image/g3fax")
    ∷ (codes ".gmx", codes "application/vnd.gmx")
    ∷ (codes ".gtw", codes "model/vnd.gtw")
    ∷ (codes ".txd", codes "application/vnd.genomatix.tuxedo")
    ∷ (codes ".ggb", codes "application/vnd.geogebra.file")
    ∷ (codes ".ggt", codes "application/vnd.geogebra.tool")
    ∷ (codes ".gdl", codes "model/vnd.gdl")
    ∷ (codes ".gex", codes "application/vnd.geometry-explorer")
    ∷ (codes ".gxt", codes "application/vnd.geonext")
    ∷ (codes ".g2w", codes "application/vnd.geoplan")
    ∷ (codes ".g3w", codes "application/vnd.geospace")
    ∷ (codes ".gsf", codes "application/x-font-ghostscript")
    ∷ (codes ".bdf", codes "application/x-font-bdf")
    ∷ (codes ".gtar", codes "application/x-gtar")
    ∷ (codes ".texinfo", codes "application/x-texinfo")
    ∷ (codes ".gnumeric", codes "application/x-gnumeric")
    ∷ (codes ".kml", codes "application/vnd.google-earth.kml+xml")
    ∷ (codes ".kmz", codes "application/vnd.google-earth.kmz")
    ∷ (codes ".gqf", codes "application/vnd.grafeq")
    ∷ (codes ".gif", codes "image/gif")
    ∷ (codes ".gv", codes "text/vnd.graphviz")
    ∷ (codes ".gac", codes "application/vnd.groove-account")
    ∷ (codes ".ghf", codes "application/vnd.groove-help")
    ∷ (codes ".gim", codes "application/vnd.groove-identity-message")
    ∷ (codes ".grv", codes "application/vnd.groove-injector")
    ∷ (codes ".gtm", codes "application/vnd.groove-tool-message")
    ∷ (codes ".tpl", codes "application/vnd.groove-tool-template")
    ∷ (codes ".vcg", codes "application/vnd.groove-vcard")
    ∷ (codes ".h261", codes "video/h261")
    ∷ (codes ".h263", codes "video/h263")
    ∷ (codes ".h264", codes "video/h264")
    ∷ (codes ".hpid", codes "application/vnd.hp-hpid")
    ∷ (codes ".hps", codes "application/vnd.hp-hps")
    ∷ (codes ".hdf", codes "application/x-hdf")
    ∷ (codes ".rip", codes "audio/vnd.rip")
    ∷ (codes ".hbci", codes "application/vnd.hbci")
    ∷ (codes ".jlt", codes "application/vnd.hp-jlyt")
    ∷ (codes ".pcl", codes "application/vnd.hp-pcl")
    ∷ (codes ".hpgl", codes "application/vnd.hp-hpgl")
    ∷ (codes ".hvs", codes "application/vnd.yamaha.hv-script")
    ∷ (codes ".hvd", codes "application/vnd.yamaha.hv-dic")
    ∷ (codes ".hvp", codes "application/vnd.yamaha.hv-voice")
    ∷ (codes ".sfd-hdstx", codes "application/vnd.hydrostatix.sof-data")
    ∷ (codes ".stk", codes "application/hyperstudio")
    ∷ (codes ".hal", codes "application/vnd.hal+xml")
    ∷ (codes ".html", codes "text/html")
    ∷ (codes ".irm", codes "application/vnd.ibm.rights-management")
    ∷ (codes ".sc", codes "application/vnd.ibm.secure-container")
    ∷ (codes ".ics", codes "text/calendar")
    ∷ (codes ".icc", codes "application/vnd.iccprofile")
    ∷ (codes ".ico", codes "image/x-icon")
    ∷ (codes ".igl", codes "application/vnd.igloader")
    ∷ (codes ".ief", codes "image/ief")
    ∷ (codes ".ivp", codes "application/vnd.immervision-ivp")
    ∷ (codes ".ivu", codes "application/vnd.immervision-ivu")
    ∷ (codes ".rif", codes "application/reginfo+xml")
    ∷ (codes ".3dml", codes "text/vnd.in3d.3dml")
    ∷ (codes ".spot", codes "text/vnd.in3d.spot")
    ∷ (codes ".igs", codes "model/iges")
    ∷ (codes ".i2g", codes "application/vnd.intergeo")
    ∷ (codes ".cdy", codes "application/vnd.cinderella")
    ∷ (codes ".xpw", codes "application/vnd.intercon.formnet")
    ∷ (codes ".fcs", codes "application/vnd.isac.fcs")
    ∷ (codes ".ipfix", codes "application/ipfix")
    ∷ (codes ".cer", codes "application/pkix-cert")
    ∷ (codes ".pki", codes "application/pkixcmp")
    ∷ (codes ".crl", codes "application/pkix-crl")
    ∷ (codes ".pkipath", codes "application/pkix-pkipath")
    ∷ (codes ".igm", codes "application/vnd.insors.igm")
    ∷ (codes ".rcprofile", codes "application/vnd.ipunplugged.rcprofile")
    ∷ (codes ".irp", codes "application/vnd.irepository.package+xml")
    ∷ (codes ".jad", codes "text/vnd.sun.j2me.app-descriptor")
    ∷ (codes ".jar", codes "application/java-archive")
    ∷ (codes ".class", codes "application/java-vm")
    ∷ (codes ".jnlp", codes "application/x-java-jnlp-file")
    ∷ (codes ".ser", codes "application/java-serialized-object")
    ∷ (codes ".java", codes "text/x-java-source,java")
    ∷ (codes ".js", codes "application/javascript")
    ∷ (codes ".json", codes "application/json")
    ∷ (codes ".joda", codes "application/vnd.joost.joda-archive")
    ∷ (codes ".jpm", codes "video/jpm")
    ∷ (codes ".jpeg, .jpg", codes "image/jpeg")
    ∷ (codes ".jpeg, .jpg", codes "image/x-citrix-jpeg")
    ∷ (codes ".pjpeg", codes "image/pjpeg")
    ∷ (codes ".jpgv", codes "video/jpeg")
    ∷ (codes ".ktz", codes "application/vnd.kahootz")
    ∷ (codes ".mmd", codes "application/vnd.chipnuts.karaoke-mmd")
    ∷ (codes ".karbon", codes "application/vnd.kde.karbon")
    ∷ (codes ".chrt", codes "application/vnd.kde.kchart")
    ∷ (codes ".kfo", codes "application/vnd.kde.kformula")
    ∷ (codes ".flw", codes "application/vnd.kde.kivio")
    ∷ []
