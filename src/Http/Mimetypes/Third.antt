-- ===== src/Http/Mimetypes/Third.antt =====
-- src/Http.cpp: a part of `known_mimetypes`.
use frnetlib.Base.{List, [], ◌∷◌, Bytes, codes}

abbrev pub third_mimetypes : List (Bytes × Bytes)
third_mimetypes =
    (codes ".kon", codes "application/vnd.kde.kontour")
    ∷ (codes ".kpr", codes "application/vnd.kde.kpresenter")
    ∷ (codes ".ksp", codes "application/vnd.kde.kspread")
    ∷ (codes ".kwd", codes "application/vnd.kde.kword")
    ∷ (codes ".htke", codes "application/vnd.kenameaapp")
    ∷ (codes ".kia", codes "application/vnd.kidspiration")
    ∷ (codes ".kne", codes "application/vnd.kinar")
    ∷ (codes ".sse", codes "application/vnd.kodak-descriptor")
    ∷ (codes ".lasxml", codes "application/vnd.las.las+xml")
    ∷ (codes ".latex", codes "application/x-latex")
    ∷ (codes ".lbd", codes "application/vnd.llamagraphics.life-balance.desktop")
    ∷ (codes ".lbe", codes "application/vnd.llamagraphics.life-balance.exchange+xml")
    ∷ (codes ".jam", codes "application/vnd.jam")
    ∷ (codes ".123", codes "application/vnd.lotus-1-2-3")
    ∷ (codes ".apr", codes "application/vnd.lotus-approach")
    ∷ (codes ".pre", codes "application/vnd.lotus-freelance")
    ∷ (codes ".nsf", codes "application/vnd.lotus-notes")
    ∷ (codes ".org", codes "application/vnd.lotus-organizer")
    ∷ (codes ".scm", codes "application/vnd.lotus-screencam")
    ∷ (codes ".lwp", codes "application/vnd.lotus-wordpro")
    ∷ (codes ".lvp", codes "audio/vnd.lucent.voice")
    ∷ (codes ".m3u", codes "audio/x-mpegurl")
    ∷ (codes ".m4v", codes "video/x-m4v")
    ∷ (codes ".hqx", codes "application/mac-binhex40")
    ∷ (codes ".portpkg", codes "application/vnd.macports.portpkg")
    ∷ (codes ".mgp", codes "application/vnd.osgeo.mapguide.package")
    ∷ (codes ".mrc", codes "application/marc")
    ∷ (codes ".mrcx", codes "application/marcxml+xml")
    ∷ (codes ".mxf", codes "application/mxf")
    ∷ (codes ".nbp", codes "application/vnd.wolfram.player")
    ∷ (codes ".ma", codes "application/mathematica")
    ∷ (codes ".mathml", codes "application/mathml+xml")
    ∷ (codes ".mbox", codes "application/mbox")
    ∷ (codes ".mc1", codes "application/vnd.medcalcdata")
    ∷ (codes ".mscml", codes "application/mediaservercontrol+xml")
    ∷ (codes ".cdkey", codes "application/vnd.mediastation.cdkey")
    ∷ (codes ".mwf", codes "application/vnd.mfer")
    ∷ (codes ".mfm", codes "application/vnd.mfmp")
    ∷ (codes ".msh", codes "model/mesh")
    ∷ (codes ".mads", codes "application/mads+xml")
    ∷ (codes ".mets", codes "application/mets+xml")
    ∷ (codes ".mods", codes "application/mods+xml")
    ∷ (codes ".meta4", codes "application/metalink4+xml")
    ∷ (codes ".mcd", codes "application/vnd.mcd")
    ∷ (codes ".flo", codes "application/vnd.micrografx.flo")
    ∷ (codes ".igx", codes "application/vnd.micrografx.igx")
    ∷ (codes ".es3", codes "application/vnd.eszigno3+xml")
    ∷ (codes ".mdb", codes "application/x-msaccess")
    ∷ (codes ".asf", codes "video/x-ms-asf")
    ∷ (codes ".exe", codes "application/x-msdownload")
    ∷ (codes ".cil", codes "application/vnd.ms-artgalry")
    ∷ (codes ".cab", codes "application/vnd.ms-cab-compressed")
    ∷ (codes ".ims", codes "application/vnd.ms-ims")
    ∷ (codes ".application", codes "application/x-ms-application")
    ∷ (codes ".clp", codes "application/x-msclip")
    ∷ (codes ".mdi", codes "image/vnd.ms-modi")
    ∷ (codes ".eot", codes "application/vnd.ms-fontobject")
    ∷ (codes ".xls", codes "application/vnd.ms-excel")
    ∷ (codes ".xlam", codes "application/vnd.ms-excel.addin.macroenabled.12")
    ∷ (codes ".xlsb", codes "application/vnd.ms-excel.sheet.binary.macroenabled.12")
    ∷ (codes ".xltm", codes "application/vnd.ms-excel.template.macroenabled.12")
    ∷ (codes ".xlsm", codes "application/vnd.ms-excel.sheet.macroenabled.12")
    ∷ (codes ".chm", codes "application/vnd.ms-htmlhelp")
    ∷ (codes ".crd", codes "application/x-mscardfile")
    ∷ (codes ".lrm", codes "application/vnd.ms-lrm")
    ∷ (codes ".mvb", codes "application/x-msmediaview")
    ∷ (codes ".mny", codes "application/x-msmoney")
    ∷ (
      codes ".pptx",
      codes "application/vnd.openxmlformats-officedocument.presentationml.presentation",
    )
    ∷ (codes ".sldx", codes "application/vnd.openxmlformats-officedocument.presentationml.slide")
    ∷ (
      codes ".ppsx",
      codes "application/vnd.openxmlformats-officedocument.presentationml.slideshow",
    )
    ∷ (codes ".potx", codes "application/vnd.openxmlformats-officedocument.presentationml.template")
    ∷ (codes ".xlsx", codes "application/vnd.openxmlformats-officedocument.spreadsheetml.sheet")
    ∷ (codes ".xltx", codes "application/vnd.openxmlformats-officedocument.spreadsheetml.template")
    ∷ (
      codes ".docx",
      codes "application/vnd.openxmlformats-officedocument.wordprocessingml.document",
    )
    ∷ (
      codes ".dotx",
      codes "application/vnd.openxmlformats-officedocument.wordprocessingml.template",
    )
    ∷ (codes ".obd", codes "application/x-msbinder")
    ∷ (codes ".thmx", codes "application/vnd.ms-officetheme")
    ∷ (codes ".onetoc", codes "application/onenote")
    ∷ (codes ".pya", codes "audio/vnd.ms-playready.media.pya")
    ∷ (codes ".pyv", codes "video/vnd.ms-playready.media.pyv")
    ∷ (codes ".ppt", codes "application/vnd.ms-powerpoint")
    ∷ (codes ".ppam", codes "application/vnd.ms-powerpoint.addin.macroenabled.12")
    ∷ (codes ".sldm", codes "application/vnd.ms-powerpoint.slide.macroenabled.12")
    ∷ (codes ".pptm", codes "application/vnd.ms-powerpoint.presentation.macroenabled.12")
    ∷ (codes ".ppsm", codes "application/vnd.ms-powerpoint.slideshow.macroenabled.12")
    ∷ (codes ".potm", codes "application/vnd.ms-powerpoint.template.macroenabled.12")
    ∷ (codes ".mpp", codes "application/vnd.ms-project")
    ∷ (codes ".pub", codes "application/x-mspublisher")
    ∷ (codes ".scd", codes "application/x-msschedule")
    ∷ (codes ".xap", codes "application/x-silverlight-app")
    ∷ (codes ".stl", codes "application/vnd.ms-pki.stl")
    ∷ (codes ".cat", codes "application/vnd.ms-pki.seccat")
    ∷ (codes ".vsd", codes "application/vnd.visio")
    ∷ (codes ".vsdx", codes "application/vnd.visio2013")
    ∷ (codes ".wm", codes "video/x-ms-wm")
    ∷ (codes ".wma", codes "audio/x-ms-wma")
    ∷ (codes ".wax", codes "audio/x-ms-wax")
    ∷ (codes ".wmx", codes "video/x-ms-wmx")
    ∷ (codes ".wmd", codes "application/x-ms-wmd")
    ∷ (codes ".wpl", codes "application/vnd.ms-wpl")
    ∷ (codes ".wmz", codes "application/x-ms-wmz")
    ∷ (codes ".wmv", codes "video/x-ms-wmv")
    ∷ (codes ".wvx", codes "video/x-ms-wvx")
    ∷ (codes ".wmf", codes "application/x-msmetafile")
    ∷ (codes ".trm", codes "application/x-msterminal")
    ∷ (codes ".doc", codes "application/msword")
    ∷ (codes ".docm", codes "application/vnd.ms-word.document.macroenabled.12")
    ∷ (codes ".dotm", codes "application/vnd.ms-word.template.macroenabled.12")
    ∷ (codes ".wri", codes "application/x-mswrite")
    ∷ (codes ".wps", codes "application/vnd.ms-works")
    ∷ (codes ".xbap", codes "application/x-ms-xbap")
    ∷ (codes ".xps", codes "application/vnd.ms-xpsdocument")
    ∷ (codes ".mid", codes "audio/midi")
    ∷ (codes ".mpy", codes "application/vnd.ibm.minipay")
    ∷ (codes ".afp", codes "application/vnd.ibm.modcap")
    ∷ (codes ".rms", codes "application/vnd.jcp.javame.midlet-rms")
    ∷ (codes ".tmo", codes "application/vnd.tmobile-livetv")
    ∷ (codes ".prc", codes "application/x-mobipocket-ebook")
    ∷ (codes ".mbk", codes "application/vnd.mobius.mbk")
    ∷ (codes ".dis", codes "application/vnd.mobius.dis")
    ∷ (codes ".plc", codes "application/vnd.mobius.plc")
    ∷ (codes ".mqy", codes "application/vnd.mobius.mqy")
    ∷ (codes ".msl", codes "application/vnd.mobius.msl")
    ∷ (codes ".txf", codes "application/vnd.mobius.txf")
    ∷ (codes ".daf", codes "application/vnd.mobius.daf")
    ∷ (codes ".fly", codes "text/vnd.fly")
    ∷ (codes ".mpc", codes "application/vnd.mophun.certificate")
    ∷ (codes ".mpn", codes "application/vnd.mophun.application")
    ∷ (codes ".mj2", codes "video/mj2")
    ∷ (codes ".mpga", codes "audio/mpeg")
    ∷ (codes ".mxu", codes "video/vnd.mpegurl")
    ∷ (codes ".mpeg", codes "video/mpeg")
    ∷ (codes ".m21", codes "application/mp21")
    ∷ (codes ".mp4a", codes "audio/mp4")
    ∷ (codes ".mp4", codes "video/mp4")
    ∷ (codes ".mp4", codes "application/mp4")
    ∷ (codes ".m3u8", codes "application/vnd.apple.mpegurl")
    ∷ (codes ".mus", codes "application/vnd.musician")
    ∷ []
